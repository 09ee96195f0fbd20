-- ===== src/Linux/Focus/Found.antt =====
-- What the search finds: a focused, editable control below the root, near enough, not off the point.
use hardware_simulator.Prelude.{
  ℕ, ◌+◌, ◌-◌, ◌≤◌, ◌≡◌, refl, Bool, true, false, not, ◌&&◌, ◌||◌, Option, none, some, arith, ltb,
  ◌==◌, if_both, if_cases, contains,
}
use mathlib.Core.Path.{subst}
use hardware_simulator.Linux.Focus.{
  Node, node, Children, no_more, missing, child, Search, child_count, min, is_pruned, tick, or_next,
  find_focus, find_children,
}

-- A node is reached from another, or from a list of children, in a number of levels.
mutual
  pub data IsBelow : Node → ℕ → Node → Type 0 where
    itself : {n : Node} → IsBelow n 0 n
    under :
        {f g : Bool} {c : Option Bool} {cs : Children} {k : ℕ} {m : Node}
        → IsAmong cs k m
        → IsBelow (node f g c cs) (k + 1) m

  pub data IsAmong : Children → ℕ → Node → Type 0 where
    past_missing : {cs : Children} {k : ℕ} {m : Node} → IsAmong cs k m → IsAmong (missing cs) k m
    first : {n : Node} {cs : Children} {k : ℕ} {m : Node} → IsBelow n k m → IsAmong (child n cs) k m
    later :
        {n : Node} {cs : Children} {k : ℕ} {m : Node} → IsAmong cs k m → IsAmong (child n cs) k m

abbrev pub is_focused : Node → Bool
is_focused (node f g c cs) = f

abbrev pub is_editable : Node → Bool
is_editable (node f g c cs) = g

abbrev pub is_off : Node → Bool
is_off (node f g none cs) = false
is_off (node f g (some contains) cs) = not contains

-- A result at a level of the tree.
abbrev pub IsHit : ℕ → ℕ → Node → Type 0
IsHit depth k m = record {
  focused : is_focused m ≡ true;
  editable : is_editable m ≡ true;
  on_point : is_off m ≡ false;
  near : depth + k ≤ 32;
}

abbrev pub Hit : ℕ → Node → Option Node → Type 0
Hit depth n none = Unit
Hit depth n (some m) = (k : ℕ) × IsBelow n k m × IsHit depth k m

abbrev pub HitAmong : ℕ → Children → Option Node → Type 0
HitAmong depth cs none = Unit
HitAmong depth cs (some m) = (k : ℕ) × IsAmong cs k m × IsHit (depth + 1) k m

not_off :
    (depth : ℕ) (f g : Bool) (c : Option Bool) (cs : Children)
    → is_pruned depth (f && g) c ≡ false
    → (f && g) ≡ true
    → is_off (node f g c cs) ≡ false
not_off depth f g none cs p e = refl
not_off depth f g (some contains) cs p e = ground arith

and_both : (f g : Bool) → (f && g) ≡ true → (f ≡ true) × (g ≡ true)
and_both true g e = (refl, e)
and_both false g e = absurd (cc)

lift_under :
    (depth : ℕ) (f g : Bool) (c : Option Bool) (cs : Children) (o : Option Node)
    → HitAmong depth cs o
    → Hit depth (node f g c cs) o
lift_under depth f g c cs none h = h
lift_under depth f g c cs (some m) h = (
  h.0 + 1,
  under h.1,
  record {
    focused = h.2.focused;
    editable = h.2.editable;
    on_point = h.2.on_point;
    near = omega (arith, h.2.near);
  },
)

lift_missing :
    (depth : ℕ) (cs : Children) (o : Option Node)
    → HitAmong depth cs o
    → HitAmong depth (missing cs) o
lift_missing depth cs none h = h
lift_missing depth cs (some m) h = (h.0, past_missing h.1, h.2)

lift_later :
    (depth : ℕ) (n : Node) (cs : Children) (o : Option Node)
    → HitAmong depth cs o
    → HitAmong depth (child n cs) o
lift_later depth n cs none h = h
lift_later depth n cs (some m) h = (h.0, later h.1, h.2)

or_next-Hit :
    (depth : ℕ) (n : Node) (cs : Children) (r : Option Node × Search)
    (next : Search → Option Node × Search)
    → Hit (depth + 1) n r.0
    → ((t : Search) → HitAmong depth cs (next t).0)
    → HitAmong depth (child n cs) (or_next r next).0
or_next-Hit depth n cs (none, t) next h k = lift_later depth n cs (next t).0 (k t)
or_next-Hit depth n cs (some m, t) next h k = (h.0, first h.1, h.2)

module _ (clock : ℕ → Bool) where
  mutual
    unfolding find_focus find_children

    pub find_focus-Hit :
        (n : Node) (depth : ℕ) (s : Search) → Hit depth n (find_focus clock n depth s).0
    find_focus-Hit (node f g c cs) depth s =
        let P : Option Node × Search → Type 0 = λ x. Hit depth (node f g c cs) x.0 in
        let t = tick (record s { remaining = s.remaining - 1 }) in
        if_cases P (ltb 32 depth || s.remaining == 0) _ _ (λ e. _)
          (λ within. if_both P (clock s.ticks) _ _ _ (
            if_cases P (is_pruned depth (f && g) c) _ _ (λ e. _)
              (λ p.
                if_cases P (f && g) _ _
                  (λ e. (
                    0,
                    itself,
                    record {
                      focused = (and_both f g e).0;
                      editable = (and_both f g e).1;
                      on_point = not_off depth f g c cs p e;
                      near = ground arith;
                    },
                  ))
                  (λ e.
                    lift_under depth f g c cs _
                      (find_children-Hit cs (min (child_count cs) t.remaining) depth t)))))

    find_children-Hit :
        (cs : Children) (count depth : ℕ) (s : Search)
        → HitAmong depth cs (find_children clock cs count depth s).0
    find_children-Hit no_more count depth s = _
    find_children-Hit (missing cs) count depth s =
        let P : Option Node × Search → Type 0 = λ x. HitAmong depth (missing cs) x.0 in
        if_both P (count == 0 || s.remaining == 0) _ _ _ (
          if_both P (clock s.ticks) _ _ _
            (lift_missing depth cs _ (find_children-Hit cs (count - 1) depth (tick s))))
    find_children-Hit (child n cs) count depth s =
        let P : Option Node × Search → Type 0 = λ x. HitAmong depth (child n cs) x.0 in
        if_both P (count == 0 || s.remaining == 0) _ _ _ (
          if_both P (clock s.ticks) _ _ _ (
            or_next-Hit depth n cs (find_focus clock n (depth + 1) (tick s))
              (λ t. find_children clock cs (count - 1) depth t)
              (find_focus-Hit n (depth + 1) (tick s))
              (λ t. find_children-Hit cs (count - 1) depth t)))

-- What the search of the desktop returns is a node of its tree, at most 32 levels down, that is focused
-- and editable, and whose component, when it has one, contains the point; whatever the budget and the
-- clock.
pub search_finds :
    (clock : ℕ → Bool) (desktop m : Node) (s : Search)
    → (find_focus clock desktop 0 s).0 ≡ some m
    → (k : ℕ) × IsBelow desktop k m × IsHit 0 k m
search_finds clock desktop m s e = subst (λ o. Hit 0 desktop o) e (find_focus-Hit clock desktop 0 s)
