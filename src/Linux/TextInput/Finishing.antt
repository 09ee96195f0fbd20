-- ===== src/Linux/TextInput/Finishing.antt =====
-- What a finished transaction types: the text only when everything stands, and nothing on a stale token.
use hardware_simulator.Prelude.{
  ℕ, zero, suc, ◌≡◌, refl, sym, ap, ◌∙◌, inl, inr, Bool, true, false, not, ◌&&◌, ◌||◌, List, [],
  ◌∷◌, ◌++◌, arith, ◌==◌, if◌then◌else◌, is_some, Bool-cases, if_both, if_true, if_false,
}
use hardware_simulator.Prelude.Int.{ℤ, pos, pos_part, leb_ℤ}
use hardware_simulator.Linux.TextInput.{
  Effect, asked, answered, backspace_down, backspace_up, commit, Backend, restore, After,
  finish_done, refuse_prepare, nobody, after, on_restore_select, on_restore_engine, no_reply,
}
use hardware_simulator.Linux.TextInput.Calls.{finish, valid_text, commit_text, backspace_keys}

-- What the engine is made to type, in the order of typing.
abbrev pub Typed : Type 0
Typed = List Effect

abbrev pub is_typing : Effect → Bool
is_typing (asked id) = false
is_typing (answered id v) = false
is_typing _ = true

-- The typing in a log, the latest first.
abbrev pub typed : List Effect → Typed
typed [] = []
typed (e ∷ es) = if is_typing e then e ∷ typed es else typed es

on_restore_engine_types :
    (k : After) (s : Backend) → typed (on_restore_engine k no_reply s).log ≡ typed s.log
unfolding on_restore_engine on_restore_select after
on_restore_engine_types (refuse_prepare id) s = ground arith
on_restore_engine_types nobody s = ground arith
on_restore_engine_types (finish_done id fit) s = ground arith

-- A restoration types nothing.
restore_types : (k : After) (s : Backend) → typed (restore k s).log ≡ typed s.log
unfolding restore
restore_types k s =
    if_both (λ (x : Backend). typed x.log ≡ typed s.log) (s.bus && s.connection_open) _ _ refl
      (on_restore_engine_types k s)

-- A transaction may type when its text is valid, the number of backspaces is in range, and the engine
-- has had the focus ever since the token was given.
abbrev pub may_type : (List ℕ → Bool) → ℤ → List ℕ → Backend → Bool
may_type utf8 backspaces text s =
    (valid_text utf8 text && leb_ℤ (pos 0) backspaces && leb_ℤ backspaces (pos 4096))
    && (is_some s.engine && s.focused && s.prepared_focus == s.focus_revision && s.bus_connected)

-- Pressed and released backspaces, the latest first.
abbrev pub pairs : ℕ → List Effect
pairs zero = []
pairs (suc n) = backspace_up ∷ backspace_down ∷ pairs n

-- A text is committed at once, an empty one not at all.
abbrev pub committed : List ℕ → List Effect
committed [] = []
committed (c ∷ cs) = commit (c ∷ cs) ∷ []

pairs_later :
    (n : ℕ) (l : List Effect)
    → pairs n ++ backspace_up ∷ backspace_down ∷ l ≡ backspace_up ∷ backspace_down ∷ (pairs n ++ l)
pairs_later zero l = refl
pairs_later (suc n) l = ap (λ x. backspace_up ∷ backspace_down ∷ x) (pairs_later n l)

typed-backspace_keys : (n : ℕ) (l : List Effect) → typed (backspace_keys n l) ≡ pairs n ++ typed l
unfolding backspace_keys
typed-backspace_keys zero l = refl
typed-backspace_keys (suc n) l =
    typed-backspace_keys n (backspace_up ∷ backspace_down ∷ l) ∙ pairs_later n (typed l)

typed-commit_text :
    (text : List ℕ) (l : List Effect) → typed (commit_text text l) ≡ committed text ++ typed l
typed-commit_text [] l = refl
typed-commit_text (c ∷ cs) l = refl

typing :
    (may : Bool) (n id : ℕ) (text : List ℕ) (l : List Effect)
    → typed (if may then commit_text text (backspace_keys n (asked id ∷ l)) else asked id ∷ l)
      ≡ (if may then committed text ++ (pairs n ++ typed l) else typed l)
typing true n id text l =
    typed-commit_text text (backspace_keys n (asked id ∷ l))
    ∙ ap (λ x. committed text ++ x) (typed-backspace_keys n (asked id ∷ l))
typing false n id text l = refl

stale :
    (a b may : Bool) (x y : List Effect)
    → a || not b ≡ true
    → (if not a && b && may then x else y) ≡ y
stale true b may x y e = refl
stale false true may x y e = absurd (cc)
stale false false may x y e = refl

current :
    (a b may : Bool) (x y : List Effect)
    → a || not b ≡ false
    → (if not a && b && may then x else y) ≡ (if may then x else y)
current true b may x y e = absurd (cc)
current false true may x y e = refl
current false false may x y e = absurd (cc)

-- `finish` with the token that stands, not 0, types the backspaces, each pressed and released, and then
-- the text, if it may type; in every other case it types nothing.
pub finish_types :
    (utf8 : List ℕ → Bool) (id token : ℕ) (backspaces : ℤ) (text : List ℕ) (s : Backend)
    → typed (finish utf8 id token backspaces text s).log ≡ (
        if not (token == 0) && token == s.token && may_type utf8 backspaces text s
        then committed text ++ (pairs (pos_part backspaces) ++ typed s.log)
        else typed s.log)
unfolding finish
finish_types utf8 id token backspaces text s =
    let may = may_type utf8 backspaces text s in
    let x = committed text ++ (pairs (pos_part backspaces) ++ typed s.log) in
    elim (Bool-cases (token == 0 || not (token == s.token))) [
      | inl e ↦
          ap (λ (z : Backend). typed z.log) (if_true (token == 0 || not (token == s.token)) _ _ e)
          ∙ sym (stale (token == 0) (token == s.token) may x (typed s.log) e)
      | inr e ↦
          let l =
            if may
            then commit_text text (backspace_keys (pos_part backspaces) (asked id ∷ s.log))
            else asked id ∷ s.log in
          ap (λ (z : Backend). typed z.log) (if_false (token == 0 || not (token == s.token)) _ _ e)
          ∙ restore_types (finish_done id may) (record s { token = 0; expiry = false; log = l })
          ∙ typing may (pos_part backspaces) id text s.log
          ∙ sym (current (token == 0) (token == s.token) may x (typed s.log) e)
    ]
