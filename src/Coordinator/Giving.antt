-- ===== src/Coordinator/Giving.antt =====
-- The rule for what an action gives: a result with a property, or an error other than that of missing fuel.
use roze_dtm.Common.{◌≡◌, refl, arith, List, String, Bool, true, false, if◌then◌else◌}
use roze_dtm.Data.{
  TransactionKind, TransactionStatus, Branch, Transaction, TransactionOptions, Error, Result, ok,
  err, ensure, out_of_fuel,
}
use roze_dtm.Memory.Barriers.{BranchBarrier}
use roze_dtm.Memory.Transactions.{get_transaction}
use roze_dtm.Engine.{
  World, Env, Exec, pure, lift, ◌>>=◌, ◌>>◌, access, load, claim, release, persist_transaction,
  transaction_of_kind, invoke, invoke_branch, current_millis, notify_branch_failure,
}
use roze_dtm.Coordinator.Tcc.{run_unless}
use roze_dtm.Coordinator.Concurrent.{persist_as}

abbrev pub is_fuel : Error → Bool
is_fuel out_of_fuel = true
is_fuel _ = false

unfoldable pub Given : {A : Type 0} → (A → Type 0) → Result A → Type 0
Given P (err e) = is_fuel e ≡ false
Given P (ok a) = P a

abbrev pub Gives : {A : Type 0} → (A → Type 0) → Exec A → Type 0
Gives P m = (w : World) → Given P (m w).0

-- Nothing but that the fuel was enough.
abbrev pub Anything : {A : Type 0} → A → Type 0
Anything a = Unit {0}

after_result :
    {A B : Type 0} (P : A → Type 0) (Q : B → Type 0) (k : A → Exec B) (run : Result A × World)
    (w : World)
    → Given P run.0
    → ((a : A) → P a → Gives Q (k a))
    → Given Q (((λ v. run) >>= k) w).0
unfolding Given
after_result P Q k (err e, w1) w first gives = first
after_result P Q k (ok a, w1) w first gives = gives a first w1

pub bind-Gives :
    {A B : Type 0} (P : A → Type 0) (Q : B → Type 0) (m : Exec A) (k : A → Exec B)
    → Gives P m
    → ((a : A) → P a → Gives Q (k a))
    → Gives Q (m >>= k)
bind-Gives P Q m k first gives w = after_result P Q k (m w) w (first w) gives

pub pure-Gives : {A : Type 0} (P : A → Type 0) (a : A) → P a → Gives P (pure a)
unfolding Given
pure-Gives P a p w = p

pub if-Gives :
    {A : Type 0} (P : A → Type 0) (c : Bool) (m n : Exec A)
    → (c ≡ true → Gives P m)
    → (c ≡ false → Gives P n)
    → Gives P (if c then m else n)
if-Gives P true m n m_gives n_gives = m_gives refl
if-Gives P false m n m_gives n_gives = n_gives refl

pub lift-Gives :
    {A B : Type 0} (P : A → Type 0) (Q : B → Type 0) (r : Result A) (k : A → Exec B)
    → Given P r
    → ((a : A) → P a → Gives Q (k a))
    → Gives Q (lift r >>= k)
unfolding Given
lift-Gives P Q (err e) k given gives w = given
lift-Gives P Q (ok a) k given gives w = gives a given w

pub ensure-Gives :
    {A : Type 0} (Q : A → Type 0) (c : Bool) (e : Error) (m : Exec A)
    → is_fuel e ≡ false
    → (c ≡ true → Gives Q m)
    → Gives Q (lift (ensure c e) >> m)
unfolding Given
ensure-Gives Q true e m other gives w = gives refl w
ensure-Gives Q false e m other gives w = other

module _ (env : Env) where
  pub load-Gives : (gid : String) → Gives Anything (load env gid)
  unfolding load get_transaction Given
  load-Gives gid w = ground arith

  loaded_of_kind-Gives :
      (gid : String) (kind : TransactionKind) → Gives Anything (transaction_of_kind env gid kind)
  unfolding transaction_of_kind get_transaction Given
  loaded_of_kind-Gives gid kind w = ground arith

  pub of_kind-Gives :
      (gid : String) (kind : TransactionKind) (k : Transaction → Exec Transaction)
      → ((tx : Transaction) → Gives Anything (k tx))
      → Gives Anything (transaction_of_kind env gid kind >>= k)
  of_kind-Gives gid kind k gives =
      bind-Gives Anything Anything (transaction_of_kind env gid kind) k
        (loaded_of_kind-Gives gid kind) (λ tx _. gives tx)

  pub unless-Gives :
      (already : TransactionStatus) (run : Transaction → Exec Transaction) (tx : Transaction)
      → Gives Anything (run tx)
      → Gives Anything (run_unless env already run tx)
  unfolding run_unless
  unless-Gives already run tx gives =
      if-Gives Anything _ (pure tx) (run tx) (λ _. pure-Gives Anything tx tt) (λ _. gives)

  pub persist_as-Gives :
      (tx : Transaction) (s : TransactionStatus) (bs : List Branch)
      → Gives (λ tx'. tx'.branches ≡ bs) (persist_as env tx s bs)
  unfolding persist_as persist_transaction access Given
  persist_as-Gives tx s bs w = refl

  pub persist-Anything :
      (tx : Transaction) (s : TransactionStatus) (bs : List Branch)
      → Gives Anything (persist_as env tx s bs)
  unfolding persist_as persist_transaction access Given
  persist-Anything tx s bs w = tt

  pub claim-Gives : (b : BranchBarrier) → Gives Anything (claim env b)
  unfolding claim access Given
  claim-Gives b w = tt

  pub release-Gives : (b : BranchBarrier) → Gives Anything (release env b)
  unfolding release access Given
  release-Gives b w = tt

  pub invoke_branch-Gives :
      (options : TransactionOptions) (gid : String) (s : TransactionStatus) (b : Branch)
      (url : String)
      → Gives Anything (invoke_branch env options gid s b url)
  unfolding invoke_branch invoke current_millis notify_branch_failure Given
  invoke_branch-Gives options gid s b url w = ground arith
