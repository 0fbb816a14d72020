-- ===== src/Gateway/Input/Bounds.antt =====
-- No set of the plan of readCsv is larger than the maximum that the menu goes up to.
use pbft_2pc.Prelude.{
  ◌∙◌, String, nat_eq, Int64, max64, lt64, true, false, List, [], ◌∷◌, ◌==◌, ok, >>=-eq-ok,
  ok-injective, ◌≡◌, ◌⊎◌, refl, arith, Bool-cases, inl, inr,
}
use pbft_2pc.Strings.{trim_space, atoi}
use pbft_2pc.Gateway.Input.{Plan, empty_plan, read_row, read_rows, read_csv}
use pbft_2pc.Gateway.Input.Readable.{starts_set}
use pbft_2pc.Gateway.Input.Sets.{new_max, StartsAt, read_row_effect}

-- The set `i` is not above the maximum, or it has nothing.
abbrev pub IsWithin : Int64 → Plan → Type 0
IsWithin i p =
    (lt64 p.max_set_num i ≡ false)
    ⊎ ((p.set_transactions_map i ≡ [])
        × (p.live_servers_map i ≡ [])
        × (p.byzantine_servers_map i ≡ []))

lt64-max64-left : (a b i : Int64) → lt64 (max64 a b) i ≡ true → lt64 a i ≡ true
lt64-max64-left a b i h = ground arith

lt64-max64-right : (a b i : Int64) → lt64 (max64 a b) i ≡ true → lt64 b i ≡ true
lt64-max64-right a b i h = ground arith

lt64_irrefl : (i : Int64) → lt64 i i ≡ false
lt64_irrefl i = ground arith

lt64-ne : (a b : Int64) → lt64 a b ≡ true → (a == b) ≡ false
lt64-ne a b h = ground arith

-- The maximum does not fall.
lt64-new_max : (m i : Int64) (row : List String) → lt64 (new_max m row) i ≡ true → lt64 m i ≡ true
lt64-new_max m i [] h = h
lt64-new_max m i (first ∷ rest) h = elim (Bool-cases (starts_set first)) [
  | inl new ↦ lt64-max64-right (atoi (trim_space first)).0 m i (rw new at h)
  | inr old ↦ rw old at h
]

-- A set that a record starts is not above the new maximum.
StartsAt-max : (m i : Int64) (row : List String) → StartsAt row i → lt64 (new_max m row) i ≡ false
StartsAt-max m i [] h = absurd h
StartsAt-max m i (first ∷ rest) (new, same) =
    elim (Bool-cases (lt64 (new_max m (first ∷ rest)) i)) [
      | inl above ↦
          (let beyond = lt64-max64-left (atoi (trim_space first)).0 m i (rw new at above) in
            absurd (ground (arith, same, beyond, lt64_irrefl i)))
      | inr within ↦ within
    ]

read_row-IsWithin :
    (clusters : List (String × List String)) (row : List String) (p p' : Plan) (i : Int64)
    → read_row clusters row p ≡ ok p'
    → IsWithin i p
    → IsWithin i p'
read_row-IsWithin clusters row p p' i h within =
    let (top, (t, _, added, _), others) = read_row_effect clusters row p p' h in
    elim (Bool-cases (lt64 p'.max_set_num i)) [
      | inr below ↦ inl below
      | inl above ↦
          (let above' : lt64 (new_max p.max_set_num row) i ≡ true = rw top at above in
            let before = lt64-new_max p.max_set_num i row above' in
            elim within [
              | inl not_above ↦ absurd (cc)
              | inr (no_ts, no_live, no_byzantine) ↦ elim (others i) [
                | inl starts ↦
                    (let at_most = StartsAt-max p.max_set_num i row starts in absurd (cc))
                | inr (live, byzantine) ↦ inr (
                  added i ∙ rw (lt64-ne (new_max p.max_set_num row) i above') no_ts,
                  live ∙ no_live,
                  byzantine ∙ no_byzantine,
                )
              ]
            ])
    ]

read_rows-IsWithin :
    (clusters : List (String × List String)) (rows : List (List String)) (p p' : Plan) (i : Int64)
    → read_rows clusters rows p ≡ ok p'
    → IsWithin i p
    → IsWithin i p'
unfolding read_rows
read_rows-IsWithin clusters [] p p' i h within = rw (ok-injective h) at within
read_rows-IsWithin clusters (row ∷ rows) p p' i h within =
    let (p1, first, rest) = >>=-eq-ok (read_row clusters row p) _ h in
    read_rows-IsWithin clusters rows p1 p' i rest
      (read_row-IsWithin clusters row p p1 i first within)

-- If readCsv returns a plan, then a number above the maximum, in the order of signed integers, has no
-- transactions, no live servers and no Byzantine servers in it.
pub read_csv-IsWithin :
    (clusters : List (String × List String)) (rows : List (List String)) (p : Plan) (i : Int64)
    → read_csv clusters rows ≡ ok p
    → IsWithin i p
unfolding read_csv empty_plan
read_csv-IsWithin clusters rows p i h =
    read_rows-IsWithin clusters rows empty_plan p i h (inr (refl, refl, refl))
