-- ===== src/Overview/Shown.antt =====
-- The rows that handleSecurity of security.go shows.
use kanyigo.Base.{
  ℕ, zero, suc, ◌≤◌, String, ◌≡◌, refl, Bool, true, false, not, ◌&&◌, none, some, List, [], ◌∷◌,
  ◌⊎◌, inl, inr, Bool-cases, length, select, str_eq, arith,
}
use kanyigo.Base.Table.{Table, lookup}
use kanyigo.LogEntry.{Time}
use kanyigo.Schema.{Database, Offender, FirewallBlock}
use kanyigo.Logs.{take, page_limit}
use kanyigo.Overview.{
  Postgres, SecurityOffender, has_expired, end_block, end_blocks, deactivate, joined_row, joined,
  stands_before, put_in_order, in_order, count_active, is_shown, query,
}

-- A block that is shown as active has not expired.
abbrev pub IsLive : Time → SecurityOffender → Type 0
IsLive now o = (o.blocked && has_expired now o.expires_at) ≡ false

abbrev pub All : (SecurityOffender → Type 0) → List SecurityOffender → Type 0
All P [] = Unit
All P (o ∷ os) = P o × All P os

end_block-live :
    (now : Time) (row : FirewallBlock)
    → ((end_block now row).active && has_expired now (end_block now row).expires_at) ≡ false
unfolding end_block
end_block-live now row = elim (Bool-cases (row.active && has_expired now row.expires_at)) [
  | inl e ↦ rw e refl
  | inr e ↦ rw e e
]

lookup-end_blocks :
    (now : Time) (ip : String) (rows : Table FirewallBlock)
    → (lookup ip (end_blocks now rows) ≡ none)
      ⊎ ((row : FirewallBlock) × (lookup ip (end_blocks now rows) ≡ some (end_block now row)))
unfolding lookup
lookup-end_blocks now ip [] = inl refl
lookup-end_blocks now ip ((j, row) ∷ rows) = elim (Bool-cases (str_eq j ip)) [
  | inl e ↦ inr (row, rw e refl)
  | inr e ↦ rw e (lookup-end_blocks now ip rows)
]

joined_row-IsLive :
    (now : Time) (ip : String) (o : Offender) (rows : Table FirewallBlock)
    → IsLive now (joined_row ip o (lookup ip (end_blocks now rows)))
unfolding joined_row
joined_row-IsLive now ip o rows = elim (lookup-end_blocks now ip rows) [
  | inl e ↦ rw (joined_row, e) refl
  | inr (row, e) ↦ rw (joined_row, e) (end_block-live now row)
]

joined-All :
    (now : Time) (blocks : Table FirewallBlock) (rows : Table Offender)
    → All (IsLive now) (joined (end_blocks now blocks) rows)
joined-All now blocks [] = tt
joined-All now blocks ((ip, o) ∷ rows) =
    (joined_row-IsLive now ip o blocks, joined-All now blocks rows)

module _ (P : SecurityOffender → Type 0) where
  put_in_order-All :
      (a : SecurityOffender) (os : List SecurityOffender)
      → P a
      → All P os
      → All P (put_in_order a os)
  unfolding put_in_order
  put_in_order-All a [] h k = (h, tt)
  put_in_order-All a (b ∷ bs) h k = elim (Bool-cases (stands_before a b)) [
    | inl e ↦ rw e (h, k)
    | inr e ↦ rw e (k.0, put_in_order-All a bs h k.1)
  ]

  in_order-All : (os : List SecurityOffender) → All P os → All P (in_order os)
  unfolding in_order
  in_order-All [] h = tt
  in_order-All (a ∷ os) h = put_in_order-All a (in_order os) h.0 (in_order-All os h.1)

  take-All : (n : ℕ) (os : List SecurityOffender) → All P os → All P (take n os)
  unfolding take
  take-All n [] h = tt
  take-All zero (a ∷ os) h = tt
  take-All (suc n) (a ∷ os) h = (h.0, take-All n os h.1)

length-take : (n : ℕ) (os : List SecurityOffender) → length (take n os) ≤ n
unfolding take
length-take n [] = omega arith
length-take zero (a ∷ os) = omega arith
length-take (suc n) (a ∷ os) = omega (arith, length-take n os)

-- What holds of each row that is shown.
abbrev pub IsShown : Postgres → Time → String → SecurityOffender → Type 0
IsShown pg now search o = (is_shown pg search o ≡ true) × IsLive now o

select-All :
    (pg : Postgres) (now : Time) (search : String) (os : List SecurityOffender)
    → All (IsLive now) os
    → All (IsShown pg now search) (select (is_shown pg search) os)
select-All pg now search [] h = tt
select-All pg now search (o ∷ os) h = elim (Bool-cases (is_shown pg search o)) [
  | inl e ↦ rw e ((e, h.0), select-All pg now search os h.1)
  | inr e ↦ rw e (select-All pg now search os h.1)
]

pub query-All :
    (pg : Postgres) (now : Time) (search : String) (limit : ℕ) (db : Database)
    → All (IsShown pg now search) (query pg search limit (deactivate now db))
unfolding query
query-All pg now search limit db = take-All _ limit _ (
    in_order-All _ _
      (select-All pg now search _ (joined-All now db.firewall_blocks db.security_offenders)))

page_limit-le : (v : String) → page_limit v ≤ 500
unfolding page_limit
page_limit-le v = ground arith

pub length-query :
    (pg : Postgres) (search v : String) (db : Database)
    → length (query pg search (page_limit v) db) ≤ 500
unfolding query
length-query pg search v db = omega (
  arith,
  length-take (page_limit v)
      (in_order (select (is_shown pg search) (joined db.firewall_blocks db.security_offenders))),
  page_limit-le v,
)

-- The blocks that are active and have not expired
abbrev pub live : Time → String × FirewallBlock → Bool
live now r = r.1.active && not (has_expired now r.1.expires_at)

pub count_active-end_blocks :
    (now : Time) (rows : Table FirewallBlock)
    → count_active (end_blocks now rows) ≡ length (select (live now) rows)
unfolding end_block
count_active-end_blocks now [] = refl
count_active-end_blocks now ((ip, row) ∷ rows) = ground (arith, count_active-end_blocks now rows)
