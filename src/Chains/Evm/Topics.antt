-- ===== src/Chains/Evm/Topics.antt =====
-- Addresses and their topics.
use coin_listener.Chains.Evm.{replicate}
use coin_listener.Prelude.{
  ℕ, ◌≡◌, refl, Bool, true, false, ◌&&◌, [], ◌∷◌, ◌++◌, Option, none, some, arith, eq_of_some,
  none-ne-some, ap, zero, suc, replicate, length-drop, length-take, take-append-drop, ◌==◌, length,
  all, take, drop, Bool-cases, inl, inr, ◌∙◌, suc, length-drop, sym,
}
use coin_listener.Prelude.Text.{
  Text, codes, strip_prefix, is_hex_digit, to_lower, length-to_lower, all-is_hex_digit-to_lower,
  lower,
}
use coin_listener.Core.Error.{AppError, ok, err-ne-ok, >>=-eq-ok, ensure, ◌>>◌}
use coin_listener.Chains.Evm

strip_prefix_lem : (s t r : Text) → strip_prefix s t ≡ some r → t ≡ s ++ r
unfolding strip_prefix
strip_prefix_lem [] t r h = eq_of_some h
strip_prefix_lem (c ∷ s) [] r h = absurd (none-ne-some h)
strip_prefix_lem (c ∷ s) (d ∷ t) r h = elim (Bool-cases (c == d)) [
  | inl same ↦
      let e : c ≡ d = ground arith in
      rw (← e) (ap (λ l. c ∷ l) (strip_prefix_lem s t r (rw same at h)))
  | inr differ ↦ absurd (none-ne-some (rw differ at h))
]

without_0x_lem :
    (e : AppError) (value digits : Text)
    → Evm.without_0x e value ≡ ok digits
    → value ≡ codes "0x" ++ digits
unfolding Evm.without_0x
without_0x_lem e value digits h =
    strip_prefix_lem (codes "0x") value digits (some_of (strip_prefix (codes "0x") value) h)
  where
    some_of : (o : Option Text) → Evm.ok_or e o ≡ ok digits → o ≡ some digits
    some_of none h = absurd (err-ne-ok h)
    some_of (some t) h = cc

ensure_lem : (test : Bool) (e : AppError) → ensure test e ≡ ok tt → test ≡ true
ensure_lem true e h = refl
ensure_lem false e h = absurd (err-ne-ok h)

ensure-then :
    (test : Bool) (e : AppError) (a b : Text)
    → (ensure test e >> ok a) ≡ ok b
    → (test ≡ true) × (a ≡ b)
ensure-then true e a b h = (refl, cc)
ensure-then false e a b h = absurd (err-ne-ok h)

-- Normalising 0x and `n` hexadecimal digits gives the digits.
normalize_hex-eq :
    (digits kind : Text) (n : ℕ)
    → length digits ≡ n
    → all is_hex_digit digits ≡ true
    → Evm.normalize_hex (codes "0x" ++ digits) n kind ≡ ok digits
unfolding Evm.normalize_hex strip_prefix
normalize_hex-eq digits kind n l h =
    let t : (length digits == n && all is_hex_digit digits) ≡ true = ground arith in rw t refl

normalize_hex-inv :
    (value kind digits : Text) (n : ℕ)
    → Evm.normalize_hex value n kind ≡ ok digits
    → (value ≡ codes "0x" ++ digits) × (length digits ≡ n) × (all is_hex_digit digits ≡ true)
unfolding Evm.normalize_hex
normalize_hex-inv value kind digits n h =
    let (d, e, f) = >>=-eq-ok (Evm.without_0x _ value) _ h in
    let (t, same) = ensure-then (length d == n && all is_hex_digit d) _ d digits f in
    let e' = without_0x_lem _ value d e in
    (rw (← same) e', rw (← same) (ground arith), rw (← same) (ground arith))

abbrev padding : Text
padding = codes "000000000000000000000000"

padded-back :
    (d : Text)
    → length d ≡ 40
    → all is_hex_digit d ≡ true
    → Evm.topic_to_address (codes "0x" ++ padding ++ to_lower d) ≡ ok (codes "0x" ++ to_lower d)
unfolding Evm.topic_to_address
padded-back d l h =
    rw
      (normalize_hex-eq (padding ++ to_lower d) (codes "topic") 64
        (omega (arith, length-to_lower d, l)) (all-is_hex_digit-to_lower d h))
      refl

-- The topic of an address leads back to the address in lower case.
pub address_to_topic-topic_to_address :
    (address topic : Text)
    → Evm.address_to_topic address ≡ ok topic
    → Evm.topic_to_address topic ≡ ok (to_lower address)
unfolding Evm.address_to_topic
address_to_topic-topic_to_address address topic h =
    let (d, e, f) = >>=-eq-ok (Evm.normalize_hex address 40 (codes "address")) _ h in
    let (value, l, hex) = normalize_hex-inv address (codes "address") d 40 e in
    let same : codes "0x" ++ padding ++ to_lower d ≡ topic = cc in
    rw (← same, value) (padded-back d l hex ∙ unfold to_lower in refl)

to_lower-append : (s t : Text) → to_lower (s ++ t) ≡ to_lower s ++ to_lower t
unfolding to_lower
to_lower-append [] t = refl
to_lower-append (c ∷ s) t = ap (λ l. lower c ∷ l) (to_lower-append s t)

all-zeros : (s : Text) → all (λ c. c == b'0') s ≡ true → to_lower s ≡ replicate (length s) b'0'
unfolding to_lower
all-zeros [] h = refl
all-zeros (c ∷ s) h =
    let e : c ≡ b'0' = ground arith in rw e (ap (λ l. b'0' ∷ l) (all-zeros s (ground arith)))

all-drop : (n : ℕ) (s : Text) → all is_hex_digit s ≡ true → all is_hex_digit (drop n s) ≡ true
all-drop zero s h = h
all-drop (suc n) [] h = h
all-drop (suc n) (c ∷ s) h = all-drop n s (ground arith)

lower_digits :
    (d : Text)
    → length d ≡ 64
    → all (λ c. c == b'0') (take 24 d) ≡ true
    → to_lower d ≡ padding ++ to_lower (drop 24 d)
lower_digits d l zeros =
    let n : length (take 24 d) ≡ 24 = omega (arith, length-take 24 d, l) in
    let z : to_lower (take 24 d) ≡ padding =
      all-zeros (take 24 d) zeros ∙ ap (λ m. replicate m b'0') n in
    ap to_lower (sym (take-append-drop 24 d))
    ∙ to_lower-append (take 24 d) (drop 24 d)
    ∙ ap (λ s. s ++ to_lower (drop 24 d)) z

-- The address of a topic leads back to the topic in lower case.
pub topic_to_address-address_to_topic :
    (topic address : Text)
    → Evm.topic_to_address topic ≡ ok address
    → Evm.address_to_topic address ≡ ok (to_lower topic)
unfolding Evm.topic_to_address
topic_to_address-address_to_topic topic address h =
    let (d, e, f) = >>=-eq-ok (Evm.normalize_hex topic 64 (codes "topic")) _ h in
    let (value, l, hex) = normalize_hex-inv topic (codes "topic") d 64 e in
    let (zeros, same) = ensure-then (all (λ c. c == b'0') (take 24 d)) _ _ address f in
    rw (← same, value) (restored d l hex zeros)
  where
    restored :
        (d : Text)
        → length d ≡ 64
        → all is_hex_digit d ≡ true
        → all (λ c. c == b'0') (take 24 d) ≡ true
        → Evm.address_to_topic (codes "0x" ++ drop 24 d) ≡ ok (to_lower (codes "0x" ++ d))
    restored d l hex zeros =
        unfold Evm.address_to_topic in
        rw
          (normalize_hex-eq (drop 24 d) (codes "address") 40 (omega (arith, length-drop 24 d, l))
            (all-drop 24 d hex))
          (ap (λ s. ok (codes "0x" ++ s)) (sym (lower_digits d l zeros)) ∙ unfold to_lower in refl)
