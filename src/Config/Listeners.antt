-- ===== src/Config/Listeners.antt =====
-- What `validateGatewayListeners` makes sure of, without its loop: which listeners there are, and
-- what a field that belongs to one of them may say.
use proxyctl.Prelude.{
  ℕ, ◌+◌, ◌≤◌, ◌≡◌, ◌≢◌, refl, Bool, true, false, not, List, [], ◌∷◌, ◌++◌, some, arith,
  if◌then◌else◌, ◌==◌, length, ◌||◌, Bool-cases, and_left, and_right, ◌&&◌, inl, inr, all,
}
use proxyctl.Text.{Text, codes, equal, member}
use proxyctl.Text.Laws.{equal_iff, equal_refl}
use proxyctl.Table.{lookup}
use proxyctl.Safex.Codes.{ok, reject_if, config_rejected, bind-eq-ok}
use proxyctl.Config.Document.{Pair}
use proxyctl.Config.Posture.{
  fields_of, mismatches, is_expected, check_listeners, validate_gateway_listeners,
}

abbrev pub name_key : Text
name_key = codes "name"

-- How often a name is in a list, and how often items name a listener.
abbrev pub count : Text → List Text → ℕ
count e [] = 0
count e (x ∷ xs) = (if equal e x then 1 else 0) + count e xs

abbrev pub count_named : Text → List Pair → ℕ
count_named e [] = 0
count_named e ((k, v) ∷ items) =
    (if equal k name_key then if equal e v then 1 else 0 else 0) + count_named e items

count-check_listeners :
    (e : Text) (items : List Pair) (seen : List Text) (current : Text) (out : List Text)
    → check_listeners seen current items ≡ ok out
    → count e out ≡ count_named e items + count e seen
unfolding check_listeners
count-check_listeners e [] seen current out h = ground arith
count-check_listeners e ((k, v) ∷ items) seen current out h = ground (
  arith,
  count-check_listeners e items (v ∷ seen) v out,
  count-check_listeners e items seen current out,
)

-- A name that is in no list is counted there never.
count-member : (e : Text) (xs : List Text) → member e xs ≡ false → count e xs ≡ 0
unfolding member
count-member e [] h = refl
count-member e (x ∷ xs) h = ground (arith, equal_iff x e, equal_iff e x, count-member e xs)

record IsDistinct (out : List Text) : Type 0 where
  expected : all is_expected out ≡ true
  once : (e : Text) → count e out ≤ 1

once-cons :
    (v e : Text) (seen : List Text)
    → member v seen ≡ false
    → count e seen ≤ 1
    → count e (v ∷ seen) ≤ 1
once-cons v e seen m h = elim (Bool-cases (equal e v)) [
  | inl same ↦ rw same (omega (arith, rw (← (equal_iff e v).0 same) at (count-member v seen m)))
  | inr other ↦ rw other (omega arith)
]

IsDistinct-cons :
    (v : Text) (seen : List Text)
    → is_expected v ≡ true
    → member v seen ≡ false
    → IsDistinct seen
    → IsDistinct (v ∷ seen)
IsDistinct-cons v seen known new s = record {
  expected = ground (arith, s.expected);
  once = λ e. once-cons v e seen new (s.once e);
}

check_listeners-IsDistinct :
    (items : List Pair) (seen : List Text) (current : Text) (out : List Text)
    → IsDistinct seen
    → check_listeners seen current items ≡ ok out
    → IsDistinct out
unfolding check_listeners
check_listeners-IsDistinct [] seen current out s h = let e : seen ≡ out = cc in rw (← e) s
check_listeners-IsDistinct ((k, v) ∷ items) seen current out s h =
    elim (Bool-cases (equal k name_key)) [
      | inl named ↦ elim (Bool-cases (not (is_expected v) || member v seen)) [
        | inl bad ↦ absurd (cc (rw (named, bad) at h))
        | inr good ↦
            check_listeners-IsDistinct items (v ∷ seen) v out
              (IsDistinct-cons v seen (ground arith) (ground arith) s) (rw (named, good) at h)
      ]
      | inr field ↦ check_listeners-IsDistinct items seen current out s (ground arith)
    ]

abbrev trojan_name : Text
trojan_name = codes "gateway-trojan-in"

abbrev https_name : Text
https_name = codes "gateway-https-in"

abbrev tproxy_name : Text
tproxy_name = codes "gateway-ikev2-tproxy"

abbrev bit : Bool → ℕ
bit b = if b then 1 else 0

-- An expected name is exactly one of the three.
one_of_three :
    (x : Text)
    → is_expected x ≡ true
    → bit (equal trojan_name x) + bit (equal https_name x) + bit (equal tproxy_name x) ≡ 1
one_of_three x h = elim (Bool-cases (equal trojan_name x)) [
  | inl a ↦ rw (← (equal_iff trojan_name x).0 a) (unfold equal in refl)
  | inr na ↦ elim (Bool-cases (equal https_name x)) [
    | inl b ↦ rw (← (equal_iff https_name x).0 b) (unfold equal in refl)
    | inr nb ↦ elim (Bool-cases (equal tproxy_name x)) [
      | inl c ↦ rw (← (equal_iff tproxy_name x).0 c) (unfold equal in refl)
      | inr nc ↦ unfold is_expected lookup in ground arith
    ]
  ]
]

count_three :
    (xs : List Text)
    → all is_expected xs ≡ true
    → length xs ≡ count trojan_name xs + count https_name xs + count tproxy_name xs
count_three [] h = omega arith
count_three (x ∷ xs) h = omega (
  arith,
  one_of_three x (and_left (is_expected x) (all is_expected xs) h),
  count_three xs (and_right (is_expected x) (all is_expected xs) h),
)

-- An accepted list names each of the three expected listeners exactly once.
pub validate-count_named :
    (items : List Pair)
    → validate_gateway_listeners items ≡ ok tt
    → (count_named (codes "gateway-trojan-in") items ≡ 1)
      × (count_named (codes "gateway-https-in") items ≡ 1)
      × (count_named (codes "gateway-ikev2-tproxy") items ≡ 1)
unfolding validate_gateway_listeners
validate-count_named items h =
    let (out, run, complete) =
      bind-eq-ok (check_listeners [] [] items)
        (λ seen.
          reject_if (not (length seen == 3)) config_rejected "gateway listener set is incomplete")
        h in
    let d =
      check_listeners-IsDistinct items [] [] out
        (record { expected = refl; once = λ e. omega arith }) run in
    let three = count_three out d.expected in
    let len : length out ≡ 3 = ground arith in
    (
      omega (
        arith,
        d.once trojan_name,
        d.once https_name,
        d.once tproxy_name,
        count-check_listeners trojan_name items [] [] out run,
      ),
      omega (
        arith,
        d.once trojan_name,
        d.once https_name,
        d.once tproxy_name,
        count-check_listeners https_name items [] [] out run,
      ),
      omega (
        arith,
        d.once trojan_name,
        d.once https_name,
        d.once tproxy_name,
        count-check_listeners tproxy_name items [] [] out run,
      ),
    )

-- The loop behind a part of the items.
check_listeners-append :
    (before rest : List Pair) (seen : List Text) (current : Text) (out : List Text)
    → check_listeners seen current (before ++ rest) ≡ ok out
    → (seen' : List Text) × (current' : Text) × (check_listeners seen' current' rest ≡ ok out)
unfolding check_listeners
check_listeners-append [] rest seen current out h = (seen, current, h)
check_listeners-append ((k, v) ∷ before) rest seen current out h =
    elim (Bool-cases (equal k name_key)) [
      | inl named ↦ check_listeners-append before rest (v ∷ seen) v out (ground arith)
      | inr field ↦ check_listeners-append before rest seen current out (ground arith)
    ]

abbrev pub no_name : List Pair → Bool
no_name [] = true
no_name ((k, _) ∷ items) = not (equal k name_key) && no_name items

check_listeners-fields :
    (fields rest : List Pair) (seen : List Text) (current : Text) (out : List Text)
    → no_name fields ≡ true
    → check_listeners seen current (fields ++ rest) ≡ ok out
    → check_listeners seen current rest ≡ ok out
unfolding check_listeners
check_listeners-fields [] rest seen current out n h = h
check_listeners-fields ((k, v) ∷ fields) rest seen current out n h =
    check_listeners-fields fields rest seen current out (ground arith) (ground arith)

-- In an accepted list, a field that stands behind a listener's name, with no other name between, and
-- that the contract of that listener fixes, has the value of the contract.
pub validate-fields_of :
    (before fields after : List Pair) (name k v want : Text)
    → validate_gateway_listeners (before ++ ((name_key, name) ∷ (fields ++ ((k, v) ∷ after))))
      ≡ ok tt
    → no_name fields ≡ true
    → k ≢ name_key
    → lookup k (fields_of name) ≡ some want
    → v ≡ want
unfolding validate_gateway_listeners
validate-fields_of before fields after name k v want h n ne fixed =
    let rest = fields ++ ((k, v) ∷ after) in
    let items = before ++ ((name_key, name) ∷ rest) in
    let (out, run, complete) =
      bind-eq-ok (check_listeners [] [] items)
        (λ seen.
          reject_if (not (length seen == 3)) config_rejected "gateway listener set is incomplete")
        h in
    let (seen, current, at_name) =
      check_listeners-append before ((name_key, name) ∷ rest) [] [] out run in
    let at_rest : check_listeners (name ∷ seen) name rest ≡ ok out =
      unfold check_listeners in ground (arith, equal_refl name_key) in
    let at_field =
      check_listeners-fields fields ((k, v) ∷ after) (name ∷ seen) name out n at_rest in
    unfold check_listeners mismatches in ground (arith, equal_iff k name_key, equal_iff v want)
