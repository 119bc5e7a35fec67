-- ===== src/Service/Soundness.antt =====
-- Every method of the service keeps the ledger sound: the rows of each account add up to its
-- balance. (`application/billing_service.py` over `sqlite_store.py` and `balance_of`.)
use code_zard.Prelude.{
  String, Bool, List, [], ◌∷◌, ◌++◌, ◌≡◌, inl, inr, arith, keep, if◌then◌else◌, Bool-cases,
}
use mathlib.Core.Path.{subst}
use mathlib.Core.List.{append-nil}
use code_zard.Prelude.Text.{same, same_iff}
use code_zard.Prelude.Int.{ℤ, pos, ◌≤ℤ◌, ◌+ℤ◌, neg, max_ℤ, int_laws}
use code_zard.Billing.Ledger.{
  EntryKind, grant, expiry, settle_pools, LedgerEntry, Pools, replay, replay_kind, no_pools,
}
use code_zard.Billing.Ledger.Conservation.{Fits, Sound, granted_nonneg-replay}
use code_zard.Store.{Db, append, all_entries}
use code_zard.Store.Append.{append_only}

Sound-append :
    (s : Pools) (xs : List LedgerEntry) (e : LedgerEntry)
    → Sound s xs
    → Fits e.kind (replay s xs) e.tokens
    → Sound s (xs ++ e ∷ [])
unfolding replay
Sound-append s [] e h f = (f, tt)
Sound-append s (x ∷ xs) e h f = (h.0, Sound-append (replay_kind x.kind s x.tokens) xs e h.1 f)

keep-append :
    (test : LedgerEntry → Bool) (xs : List LedgerEntry) (e : LedgerEntry)
    → keep test (xs ++ e ∷ []) ≡ keep test xs ++ (if test e then e ∷ [] else [])
keep-append test [] e = elim (Bool-cases (test e)) [ inl t ↦ rw (t, keep) | inr f ↦ rw (f, keep) ]
keep-append test (x ∷ xs) e = elim (Bool-cases (test x)) [
  | inl t ↦ rw (t, keep, keep-append test xs e)
  | inr f ↦ rw (f, keep, keep-append test xs e)
]

-- The rows of every account are sound.
abbrev pub IsSound : Db → Type 0
IsSound db = (account : String) → Sound no_pools (all_entries account db)

all_entries-added :
    (a : String) (e : LedgerEntry) (db : Db)
    → all_entries a (record db { ledger = db.ledger ++ e ∷ [] })
      ≡ all_entries a db ++ (if same e.account a then e ∷ [] else [])
unfolding all_entries
all_entries-added a e db = keep-append (λ x. same x.account a) db.ledger e

abbrev FitsIn : LedgerEntry → Db → Type 0
FitsIn e db = Fits e.kind (replay no_pools (all_entries e.account db)) e.tokens

added-IsSound :
    (e : LedgerEntry) (db : Db)
    → IsSound db
    → FitsIn e db
    → IsSound (record db { ledger = db.ledger ++ e ∷ [] })
added-IsSound e db h f a = rw (all_entries-added a e db) (elim (Bool-cases (same e.account a)) [
  | inl own ↦
      let here = (same_iff e.account a).0 own in
      rw own (
        Sound-append no_pools (all_entries a db) e (h a)
          (subst (λ x. Fits e.kind (replay no_pools (all_entries x db)) e.tokens) here f))
  | inr other ↦ rw (other, append-nil) (h a)
])

pub append-IsSound :
    (e : LedgerEntry) (db : Db) → IsSound db → FitsIn e db → IsSound (append e db).1
append-IsSound e db h f = elim (append_only e db) [
  | inl unchanged ↦ rw unchanged h
  | inr added ↦ rw added (added-IsSound e db h f)
]

-- A row that adds tokens fits, whatever its kind.
pub credit-Fits : (k : EntryKind) (s : Pools) (t : ℤ) → pos 0 ≤ℤ s.granted → pos 0 ≤ℤ t → Fits k s t
credit-Fits grant s t g h = h
credit-Fits expiry s t g h = omega int_laws
credit-Fits _ s t g h = tt

-- So does an expiry of what the balance shows as granted.
pub expiry-Fits :
    (a : String) (s : Pools) → pos 0 ≤ℤ s.granted → Fits expiry s (neg (settle_pools a s).granted)
unfolding settle_pools max_ℤ ◌+ℤ◌ neg
expiry-Fits a s g = ground arith

pub granted_nonneg :
    (a : String) (db : Db) → IsSound db → pos 0 ≤ℤ (replay no_pools (all_entries a db)).granted
granted_nonneg a db h = granted_nonneg-replay no_pools (all_entries a db) (omega arith) (h a)
