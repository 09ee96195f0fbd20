-- ===== src/Windows/Displays/Tests.antt =====
-- Two displays, one virtual, and a registry that does what it is asked.
use hardware_simulator.Prelude.{
  ℕ, ◌-◌, ◌≡◌, refl, ◌⊎◌, inl, true, false, none, some, List, [], ◌∷◌, arith, ◌==◌,
}
use hardware_simulator.Prelude.Int.{pos}
use hardware_simulator.Windows.Service.Control.{DisplayConfig}
use hardware_simulator.Windows.Displays.{
  Display, DisplayPath, Layout, Control, new_control, remove_display, set_orientation,
}
use hardware_simulator.Windows.Displays.Topology.{
  queried, insufficient, PrimaryAnswers, query_layout, save_display_configuration, apply_primary,
  set_primary_display_only, only_layout, accepted, denied, refused, restore_display_configuration,
}
use hardware_simulator.Windows.Displays.Restoring.{
  Call, add, restore_both, remove, restore, shut_down, run, IsKept,
}
use hardware_simulator.Windows.Displays.Restoring.Runs.{run-IsKept}
use hardware_simulator.Windows.Displays.Primary.{with_backup, failed_call_blocks}
use hardware_simulator.Windows.Displays.Console.{
  Desk, Session, ensure_console_for_display, has_active_display, find_target_session,
  has_active_rdp_session, choose_session, any_rdp,
}
use hardware_simulator.Windows.Displays.Configs.{
  RegistryAnswers, set_custom_display_configs, get_custom_display_configs,
}
use hardware_simulator.Windows.Displays.Configs.Kept.{Willing, get_custom_display_configs-set}

abbrev panel : Display
panel = record {
  uid = pos 1024;
  is_virtual = false;
  device_name = 1;
  orientation = 0;
  last_arrival = 5;
}

abbrev virtual : Display
virtual = record {
  uid = pos 0;
  is_virtual = true;
  device_name = 2;
  orientation = 0;
  last_arrival = 9;
}

abbrev path : ℕ → DisplayPath
path n = record {
  path_id = n;
  is_active = true;
  is_primary_view = n == 1;
  source_name = some n;
  mode_index = n - 1;
}

abbrev both : Layout
both = record {
  paths = path 1 ∷ path 2 ∷ [];
  modes =
      record { is_source = true; position = record { x = pos 0; y = pos 0 } }
      ∷ record { is_source = true; position = record { x = pos 1920; y = pos 0 } }
      ∷ [];
}

abbrev running : Control
running = record new_control { initialized = true; handle = 7; displays = panel ∷ virtual ∷ [] }

abbrev answers : PrimaryAnswers
answers = record {
  database = insufficient ∷ queried both ∷ [];
  current = queried both ∷ [];
  active_layout = some both;
  accepts = true;
}

abbrev saved : Control
saved = record running { has_backup = true; original = both; persistent = both }

virtual_only :
    (set_primary_display_only (pos 0) answers running).1.applied
    ≡ record {
      layout = record {
        paths =
            record (path 1) { is_active = false; is_primary_view = false }
            ∷ record (path 2) { is_active = true; is_primary_view = true }
            ∷ [];
        modes =
            record { is_source = true; position = record { x = pos 0; y = pos 0 } }
            ∷ record { is_source = true; position = record { x = pos 0; y = pos 0 } }
            ∷ [];
      };
      persist = true;
    }
      ∷ []
unfolding set_primary_display_only save_display_configuration query_layout apply_primary only_layout
virtual_only = refl

panel_stays : remove_display (pos 1024) running ≡ (false, running)
unfolding remove_display
panel_stays = refl

turned :
    set_orientation 1 (some (1920, 1080)) true virtual
    ≡ (true, (some (1080, 1920), record virtual { orientation = 1 }))
unfolding set_orientation
turned = refl

restore_both_example :
    let r = restore_display_configuration accepted refused saved in
    ((r.0 ≡ true)
      × (r.1.has_backup ≡ false)
      × (r.1.applied
          ≡ record { layout = both; persist = false }
            ∷ record { layout = both; persist = true }
            ∷ []))
    ⊎ ((r.0 ≡ false) × (r.1.has_backup ≡ true) × (r.1.original ≡ both) × (r.1.persistent ≡ both))
restore_both_example = restore_both accepted refused saved refl

run-IsKept_example : IsKept both both (
    run
      (restore accepted refused ∷ remove (pos 0) ∷ shut_down (denied (some true)) accepted ∷ [])
      saved)
run-IsKept_example =
    run-IsKept both both
      (restore accepted refused ∷ remove (pos 0) ∷ shut_down (denied (some true)) accepted ∷ [])
      saved (inl (refl, refl, refl))

accepted_call : (set_primary_display_only (pos 0) answers running).0 ≡ true
unfolding set_primary_display_only save_display_configuration query_layout apply_primary
accepted_call = refl

-- A restoration that fails, and a display that is added.
abbrev between : List Call
between = restore accepted refused ∷ add (pos 1) [] ∷ []

failed_call_blocks_example :
    (set_primary_display_only (pos 3) answers running ≡ (false, with_backup both both running))
    × (let t = run between (set_primary_display_only (pos 3) answers running).1 in
        set_primary_display_only (pos 0) answers t ≡ (false, t))
unfolding query_layout
failed_call_blocks_example =
    failed_call_blocks (pos 3) (pos 0) answers answers both both running between refl refl refl refl
      (refl, (tt, tt))

abbrev willing : RegistryAnswers
willing = record {
  key_opens = true;
  subkey_opens = λ i. true;
  deletes = λ i. true;
  writes = λ i n. true;
}

willing_laws : Willing willing
willing_laws = record {
  opens = refl;
  subkeys = λ i. refl;
  deleted = λ i. refl;
  written = λ i n. refl;
}

abbrev full_hd : DisplayConfig
full_hd = record { width = pos 1920; height = pos 1080; refresh_rate = pos 60 }

get_custom_display_configs-set_example :
    let r =
      set_custom_display_configs willing (full_hd ∷ []) (none ∷ none ∷ none ∷ none ∷ none ∷ []) in
    (r.0 ≡ true) × (get_custom_display_configs willing r.1 ≡ full_hd ∷ [])
get_custom_display_configs-set_example =
    get_custom_display_configs-set willing willing_laws (full_hd ∷ [])
      (none ∷ none ∷ none ∷ none ∷ none ∷ []) ((omega arith, omega arith, omega arith), tt)

abbrev away_user : Session
away_user = record {
  session_id = 3;
  has_user = true;
  is_disconnected = true;
  is_active = false;
  rdp_protocol = false;
  rdp_station = false;
}

abbrev abandoned : Desk
abandoned = record {
  adapters = false ∷ [];
  sessions_for_target = some (away_user ∷ []);
  sessions_for_rdp = some (away_user ∷ []);
  console = 1;
  tscon = λ s. true;
}

switched : ensure_console_for_display abandoned ≡ (true, some 3)
unfolding ensure_console_for_display has_active_display find_target_session choose_session
    has_active_rdp_session any_rdp
switched = refl
