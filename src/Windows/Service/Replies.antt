-- ===== src/Windows/Service/Replies.antt =====
-- Which responses of the service are accepted, and what a request may be.
use hardware_simulator.Prelude.{
  ℕ, ◌+◌, ◌*◌, ◌/◌, ◌%◌, ◌^◌, ◌≤◌, ◌<◌, ◌≡◌, refl, sym, ap, ◌∙◌, inl, inr, Bool, true, false, not,
  ◌&&◌, ◌||◌, Option, none, some, List, [], ◌∷◌, ◌++◌, arith, ltb, ◌==◌, if◌then◌else◌,
  Option-cases, if_both, ◌>>=◌, if_cases, if_true, if_false, length, length-append, All,
}
use hardware_simulator.Windows.Service.Bytes.{le32, le32_value, le32_value_lem}
use hardware_simulator.Windows.Service.Messages.{header}
use hardware_simulator.Windows.Service.Control.{
  MsgHeader, Wire, Control, read_header, is_response, read_raw, accept_response, exchange,
  msg_error_resp, max_message_size, restore_payload, concat,
}

bind_some :
    {A B : Type 0} (o : Option A) (f : A → Option B) (b : B)
    → (o >>= f) ≡ some b
    → (a : A) × (o ≡ some a) × (f a ≡ some b)
bind_some none f b e = absurd (cc)
bind_some (some a) f b e = (a, refl, e)

if_some :
    {A : Type 0} (b : Bool) (x y : A) → (if b then some x else none) ≡ some y → (b ≡ true) × (x ≡ y)
if_some true x y e = (refl, cc)
if_some false x y e = absurd (cc)

and_left : (a b : Bool) → a && b ≡ true → a ≡ true
and_left true b e = refl
and_left false b e = e

and_right : (a b : Bool) → a && b ≡ true → b ≡ true
and_right true b e = e
and_right false b e = absurd (cc)

-- A header is read back.
pub read_header-header :
    (type size seq : ℕ) (rest : List ℕ)
    → type < 2 ^ 32
    → size < 2 ^ 32
    → seq < 2 ^ 32
    → read_header (header type size seq ++ rest)
      ≡ some (record { type = type; payload_size = size; seq = seq }, rest)
read_header-header type size seq rest t z s =
    ap (λ k. some (record { type = k; payload_size = le32_value size; seq = le32_value seq }, rest))
      (le32_value_lem type t)
    ∙ ap (λ k. some (record { type = type; payload_size = k; seq = le32_value seq }, rest))
        (le32_value_lem size z)
    ∙ ap (λ k. some (record { type = type; payload_size = size; seq = k }, rest))
        (le32_value_lem seq s)

read_raw-some :
    (w : Wire) (b : ℕ) (bs : List ℕ) → w.reads ≡ some (b ∷ bs) → read_raw w ≡ some (b ∷ bs)
read_raw-some w b bs e =
    rw (read_raw, e) (if_false (length (b ∷ bs) == 0) none (some (b ∷ bs)) (ground arith))

accept_response-header :
    (seq expected : ℕ) (r : List ℕ)
    → expected < msg_error_resp
    → length r < 2 ^ 32
    → seq < 2 ^ 32
    → accept_response seq expected (length r) (header expected (length r) seq ++ r) ≡ some r
unfolding accept_response
accept_response-header seq expected r t l s =
    let size = length r in
    let h : MsgHeader = record { type = expected; payload_size = size; seq = seq } in
    let sure : is_response h seq (size % 2 ^ 32) expected size ≡ true = ground (arith, t, l) in
    ap
      (λ (o : Option (MsgHeader × List ℕ)). o >>= (λ x.
        if is_response x.0 seq (length x.1 % 2 ^ 32) expected size then some x.1 else none))
      (read_header-header expected size seq r (omega (arith, t)) l s)
    ∙ if_true (is_response h seq (size % 2 ^ 32) expected size) (some r) none sure

-- A response with the right number, type and size is accepted, and its payload is handed on.
pub exchange_accepts :
    (type expected : ℕ) (payload r : List ℕ) (w : Wire) (c : Control)
    → expected < msg_error_resp
    → length r < 2 ^ 32
    → c.next_seq < 2 ^ 32
    → w.writes ≡ true
    → w.reads ≡ some (header expected (length r) c.next_seq ++ r)
    → (exchange type payload expected (length r) w c).0 ≡ some r
unfolding exchange accept_response
exchange_accepts type expected payload r w c t l s y e =
    let bytes = header expected (length r) c.next_seq ++ r in
    if_cases (λ (x : Option (List ℕ) × Control). x.0 ≡ some r) (not w.writes) _ _
      (λ z. let q : false ≡ true = sym (ap not y) ∙ z in absurd (cc))
      (λ z.
        ap (λ (o : Option (List ℕ)). o >>= (λ b. accept_response c.next_seq expected (length r) b))
          (read_raw-some w _ _ e)
        ∙ accept_response-header c.next_seq expected r t l s)

is_response_fields :
    (h : MsgHeader) (seq actual expected size : ℕ)
    → is_response h seq actual expected size ≡ true
    → (h.seq ≡ seq) × (h.payload_size ≡ actual) × (h.type ≡ expected) × (h.payload_size ≡ size)
is_response_fields h seq actual expected size e =
    (ground arith, ground arith, ground arith, ground arith)

read_raw_reads : (w : Wire) (bytes : List ℕ) → read_raw w ≡ some bytes → w.reads ≡ some bytes
read_raw_reads w bytes e = elim (Option-cases w.reads) [
  | inl z ↦
      let q : read_raw w ≡ none = rw (read_raw, z) refl in
      let n : none ≡ some bytes = sym q ∙ e in absurd (cc)
  | inr (b, z) ↦
      let q : read_raw w ≡ (if length b == 0 then none else some b) = rw (read_raw, z) refl in
      z ∙ not_empty b (sym q ∙ e)
]
  where
    not_empty :
        (b : List ℕ) → (if length b == 0 then none else some b) ≡ some bytes → some b ≡ some bytes
    not_empty b =
        if_both (λ o. o ≡ some bytes → some b ≡ some bytes) (length b == 0) none (some b)
          (λ q. absurd (cc)) (λ q. q)

-- Only such a response is: what is handed on follows a header with the request's number, the expected
-- type and the size of what is handed on.
pub exchange_only :
    (type expected size : ℕ) (payload r : List ℕ) (w : Wire) (c : Control)
    → (exchange type payload expected size w c).0 ≡ some r
    → (bytes : List ℕ) × (h : MsgHeader) × (w.reads ≡ some bytes)
      × (read_header bytes ≡ some (h, r))
      × (h.seq ≡ c.next_seq)
      × (h.type ≡ expected)
      × (h.payload_size ≡ size)
      × (length r % 2 ^ 32 ≡ size)
unfolding exchange accept_response
exchange_only type expected size payload r w c e =
    let seq = c.next_seq in
    if_cases (λ (x : Option (List ℕ) × Control). x.0 ≡ some r → Goal) (not w.writes) _ _
      (λ z q. absurd (cc))
      (λ z q.
        let raw = bind_some (read_raw w) (λ b. accept_response seq expected size b) r q in
        let bytes = raw.0 in
        let parsed =
          bind_some (read_header bytes)
            (λ x.
              if is_response x.0 seq (length x.1 % 2 ^ 32) expected size then some x.1 else none)
            r raw.2 in
        let checks =
          if_some (is_response parsed.0.0 seq (length parsed.0.1 % 2 ^ 32) expected size) parsed.0.1
            r parsed.2 in
        let h = parsed.0.0 in
        let f = is_response_fields h seq (length parsed.0.1 % 2 ^ 32) expected size checks.0 in
        (
          bytes,
          h,
          read_raw_reads w bytes raw.1,
          parsed.1 ∙ ap (λ k. some (h, k)) checks.1,
          f.0,
          f.2,
          f.3,
          sym (ap (λ (k : List ℕ). length k % 2 ^ 32) checks.1) ∙ sym f.1 ∙ f.3,
        ))
      e
  where
    Goal : Type 0
    Goal =
        (bytes : List ℕ) × (h : MsgHeader) × (w.reads ≡ some bytes)
        × (read_header bytes ≡ some (h, r))
        × (h.seq ≡ c.next_seq)
        × (h.type ≡ expected)
        × (h.payload_size ≡ size)
        × (length r % 2 ^ 32 ≡ size)

length-concat :
    (n : ℕ) (xs : List (List ℕ)) → All (λ x. length x ≡ n) xs → length (concat xs) ≡ length xs * n
length-concat n [] h = omega arith
length-concat n (x ∷ xs) h = omega (arith, length-append x (concat xs), length-concat n xs h.1, h.0)

-- A restoration that is sent fits the service's message, header included.
pub restore_payload_fits :
    (paths modes : List (List ℕ)) (bytes : List ℕ)
    → All (λ x. length x ≡ 72) paths
    → All (λ x. length x ≡ 64) modes
    → restore_payload paths modes ≡ some bytes
    → 12 + length bytes ≤ max_message_size
unfolding restore_payload
restore_payload_fits paths modes bytes hp hm e =
    if_cases (λ o. o ≡ some bytes → 12 + length bytes ≤ max_message_size)
      (length paths == 0
        || length modes == 0
        || ltb (max_message_size / 72) (length paths)
        || ltb (max_message_size / 64) (length modes))
      _ _ (λ z q. absurd (cc))
      (λ z.
        if_cases (λ o. o ≡ some bytes → 12 + length bytes ≤ max_message_size)
          (ltb max_message_size (12 + (8 + length paths * 72 + length modes * 64))) _ _
          (λ y q. absurd (cc))
          (λ y q.
            let same : le32 (length paths) ++ le32 (length modes) ++ concat paths ++ concat modes
                ≡ bytes =
              cc in
            let total = ap length same in
            ground (
              arith,
              total,
              length-append (concat paths) (concat modes),
              length-concat 72 paths hp,
              length-concat 64 modes hm,
            )))
      e
