-- ===== src/Memory/Leases/Exclusion.antt =====
-- A recovery lease is exclusive until it expires.
use roze_dtm.Common.{
  all, not, ◌&&◌, ◌||◌, ℕ, ◌<◌, ◌≡◌, ◌≢◌, ◌↔◌, refl, String, Bool, true, Option, none, some, List,
  [], ◌∷◌, arith, ◌==◌, ==_iff, string_ord, inl, inr, saturating_add, Bool-cases, ltb, ltb→lt,
}
use roze_dtm.Map.{lookup, lookup-insert}
use roze_dtm.Memory.Leases.{Leases, RecoveryLease, try_acquire_recovery_lease}

-- `owner` holds the lease `name` at the time `now`.
abbrev pub Holds : String → String → ℕ → Leases → Type 0
Holds name owner now leases =
    (l : RecoveryLease) × (lookup name leases ≡ some l)
    × (l.owner ≡ owner)
    × (now < l.expires_at_millis)

pub record Attempt : Type 0 where
  pub at : ℕ
  pub name : String
  pub owner : String
  pub ttl_millis : ℕ

unfoldable pub attempt : Leases → Attempt → Bool × Leases
unfolding try_acquire_recovery_lease
attempt leases a = try_acquire_recovery_lease a.at a.name a.owner a.ttl_millis leases

-- Another owner holds the lease that the attempt is for.
abbrev pub HeldByOther : Leases → Attempt → Type 0
HeldByOther leases a =
    (other : String) × (other ≢ a.owner)
    × (l : RecoveryLease) × (lookup a.name leases ≡ some l)
    × (l.owner ≡ other)
    × (a.at < l.expires_at_millis)

granted_if_free :
    (leases : Leases) (a : Attempt) (found : Option RecoveryLease)
    → lookup a.name leases ≡ found
    → ¬ HeldByOther leases a
    → (attempt leases a).0 ≡ true
unfolding attempt
granted_if_free leases a none e h = ground arith
granted_if_free leases a (some l) e h = elim (Bool-cases (l.owner == a.owner)) [
  | inl same ↦ ground arith
  | inr differ ↦ elim (Bool-cases (ltb a.at l.expires_at_millis)) [
    | inl live ↦
        absurd
          (h (l.owner, λ p. ground (arith, ==_iff l.owner a.owner), l, e, refl, ltb→lt _ _ live))
    | inr over ↦ ground arith
  ]
]

-- An attempt is granted exactly when no other owner holds the lease at its time.
pub attempt-granted_iff :
    (leases : Leases) (a : Attempt) → ((attempt leases a).0 ≡ true) ↔ (¬ HeldByOther leases a)
unfolding attempt
attempt-granted_iff leases a = (
  λ h (other, ne, l, at, owner, live). ground (arith, ==_iff l.owner a.owner),
  granted_if_free leases a (lookup a.name leases) refl,
)

-- A granted attempt holds its lease for the whole of its time to live.
pub attempt-Holds :
    (leases : Leases) (a : Attempt) (now : ℕ)
    → (attempt leases a).0 ≡ true
    → now < saturating_add a.at a.ttl_millis
    → Holds a.name a.owner now (attempt leases a).1
unfolding attempt
attempt-Holds leases a now g h = (
  record { owner = a.owner; expires_at_millis = saturating_add a.at a.ttl_millis },
  ground (
    arith,
    lookup-insert a.name a.name
        (record { owner = a.owner; expires_at_millis = saturating_add a.at a.ttl_millis }) leases,
    ==_iff a.name a.name,
  ),
  refl,
  h,
)

unfoldable pub run_attempts : Leases → List Attempt → Leases
run_attempts leases [] = leases
run_attempts leases (a ∷ more) = run_attempts (attempt leases a).1 more

-- An attempt that names another lease, or is made by another owner before the lease expires.
abbrev pub is_rival : RecoveryLease → String → Attempt → Bool
is_rival l name a =
    not (a.name == name) || (not (a.owner == l.owner) && ltb a.at l.expires_at_millis)

-- Each attempt on the lease is refused.
unfoldable pub all_refused : String → Leases → List Attempt → Bool
all_refused name leases [] = true
all_refused name leases (a ∷ more) =
    let rest = all_refused name (attempt leases a).1 more in
    (not (a.name == name) || not (attempt leases a).0) && rest

rival_step :
    (l : RecoveryLease) (name : String) (leases : Leases) (a : Attempt)
    → lookup name leases ≡ some l
    → is_rival l name a ≡ true
    → (lookup name (attempt leases a).1 ≡ some l)
      × ((not (a.name == name) || not (attempt leases a).0) ≡ true)
unfolding attempt
rival_step l name leases a h r = elim (Bool-cases (a.name == name)) [
  | inl same ↦
      let e : a.name ≡ name = (==_iff a.name name).0 same in
      (
        ground (arith, ==_iff l.owner a.owner, ==_iff a.owner l.owner),
        ground (arith, ==_iff l.owner a.owner, ==_iff a.owner l.owner),
      )
  | inr differ ↦ (
    ground (
      arith,
      lookup-insert a.name name
          (record { owner = a.owner; expires_at_millis = saturating_add a.at a.ttl_millis }) leases,
    ),
    ground arith,
  )
]

-- While a lease has not expired, no interleaving of attempts by other owners, on this lease or on
-- any other, takes it away: each attempt on it is refused and the lease stays as it is.
pub lease_exclusive :
    (l : RecoveryLease) (name : String) (leases : Leases) (more : List Attempt)
    → lookup name leases ≡ some l
    → all (is_rival l name) more ≡ true
    → (lookup name (run_attempts leases more) ≡ some l) × (all_refused name leases more ≡ true)
unfolding run_attempts all_refused
lease_exclusive l name leases [] h r = (h, refl)
lease_exclusive l name leases (a ∷ more) h r =
    let (kept, refused) = rival_step l name leases a h (ground (arith, r)) in
    let (rest, others) =
      lease_exclusive l name (attempt leases a).1 more kept (ground (arith, r)) in
    (rest, ground (arith, refused, others))
