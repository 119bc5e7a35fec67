-- ===== src/Store/Append.antt =====
-- The ledger of `sqlite_store.py`: `_append` is idempotent on a reference, keeps ids and references
-- unique, and only ever adds a row at the end.
use code_zard.Prelude.{
  String, true, false, not, ◌&&◌, ◌||◌, none, some, List, [], ◌∷◌, ◌++◌, ◌≡◌, ◌≢◌, ◌⊎◌, inl, inr,
  refl, arith, if◌then◌else◌, Bool-cases,
}
use code_zard.Prelude.Text.{same, same_iff, same_refl}
use code_zard.Prelude.Result.{ok}
use code_zard.Billing.Ledger.{LedgerEntry}
use code_zard.Store.{Db, has_id, find_reference, has_row, fits_row, append}

find_reference-append :
    (r : String) (es : List LedgerEntry) (e : LedgerEntry)
    → find_reference r es ≡ none
    → find_reference r (es ++ e ∷ [])
      ≡ (if same e.reference r && not (same e.reference "") then some e else none)
unfolding find_reference
find_reference-append r [] e h = refl
find_reference-append r (x ∷ es) e h = ground (arith, find_reference-append r es e)

has_id-append :
    (id : String) (es : List LedgerEntry) (e : LedgerEntry)
    → has_id id (es ++ e ∷ []) ≡ (has_id id es || same e.id id)
unfolding has_id
has_id-append id [] e = ground arith
has_id-append id (x ∷ es) e = ground (arith, has_id-append id es e)

-- What a successful append leaves under its reference.
pub find_reference_after :
    (e row : LedgerEntry) (db : Db)
    → e.reference ≢ ""
    → (append e db).0 ≡ ok row
    → find_reference e.reference (append e db).1.ledger ≡ some row
unfolding append
find_reference_after e row db named h = ground (
  arith,
  find_reference-append e.reference db.ledger e,
  same_iff e.reference "",
  same_refl e.reference,
)

-- Under the reference of a row that is there already an append adds nothing.
pub append_found :
    (e row : LedgerEntry) (db : Db)
    → find_reference e.reference db.ledger ≡ some row
    → (append e db).1 ≡ db
unfolding append
append_found e row db h = ground arith

-- What was stored had integers that the columns hold.
pub append_fits : (e row : LedgerEntry) (db : Db) → (append e db).0 ≡ ok row → fits_row e ≡ true
unfolding append
append_fits e row db h = ground arith

-- Once a fact is recorded under a reference that is not empty, recording it again under that
-- reference, with whatever id and account and with integers that the columns hold, adds nothing and returns the row that is there.
pub append_again :
    (e row again : LedgerEntry) (db : Db)
    → e.reference ≢ ""
    → (append e db).0 ≡ ok row
    → again.reference ≡ e.reference
    → fits_row again ≡ true
    → append again (append e db).1 ≡ (ok row, (append e db).1)
append_again e row again db named h r fits =
    let found = find_reference_after e row db named h in unfold append in ground (arith, found)

-- The two unique constraints of the table: no id twice, and no reference twice but the empty one.
abbrev pub IsUnique : List LedgerEntry → Type 0
IsUnique [] = Unit
IsUnique (e ∷ es) = (has_id e.id es ≡ false) × (find_reference e.reference es ≡ none) × IsUnique es

find_reference-snoc_none :
    (x e : LedgerEntry) (es : List LedgerEntry)
    → find_reference x.reference es ≡ none
    → find_reference e.reference (x ∷ es) ≡ none
    → find_reference x.reference (es ++ e ∷ []) ≡ none
unfolding find_reference
find_reference-snoc_none x e es h fresh = ground (
  arith,
  find_reference-append x.reference es e h,
  same_iff e.reference x.reference,
  same_iff x.reference e.reference,
  same_refl x.reference,
)

has_id-snoc_false :
    (x e : LedgerEntry) (es : List LedgerEntry)
    → has_id x.id es ≡ false
    → has_id e.id (x ∷ es) ≡ false
    → has_id x.id (es ++ e ∷ []) ≡ false
unfolding has_id
has_id-snoc_false x e es h fresh =
    ground (arith, has_id-append x.id es e, same_iff e.id x.id, same_iff x.id e.id)

find_reference-tail :
    (r : String) (x : LedgerEntry) (es : List LedgerEntry)
    → find_reference r (x ∷ es) ≡ none
    → find_reference r es ≡ none
unfolding find_reference
find_reference-tail r x es h = ground arith

snoc-IsUnique :
    (es : List LedgerEntry) (e : LedgerEntry)
    → IsUnique es
    → has_id e.id es ≡ false
    → find_reference e.reference es ≡ none
    → IsUnique (es ++ e ∷ [])
snoc-IsUnique [] e u i r = (unfold has_id in refl, unfold find_reference in refl, tt)
snoc-IsUnique (x ∷ es) e u i r = (
  has_id-snoc_false x e es u.0 i,
  find_reference-snoc_none x e es u.1 r,
  snoc-IsUnique es e u.2 (unfold has_id in ground arith) (find_reference-tail e.reference x es r),
)

append_cases :
    (e : LedgerEntry) (db : Db)
    → ((append e db).1 ≡ db)
      ⊎ ((append e db ≡ (ok e, record db { ledger = db.ledger ++ e ∷ [] }))
          × (has_id e.id db.ledger ≡ false)
          × (find_reference e.reference db.ledger ≡ none))
unfolding append
append_cases e db = elim (Bool-cases (fits_row e)) [
  | inr too_large ↦ inl (rw too_large)
  | inl fits ↦
      elim (Bool-cases (has_id e.id db.ledger || has_row (find_reference e.reference db.ledger))) [
        | inl clash ↦ inl (rw (fits, clash))
        | inr fresh ↦ inr (rw (fits, fresh), ground arith, ground arith)
      ]
]

-- Every append keeps ids and references unique, whatever it is handed and however it ends.
pub append-IsUnique :
    (e : LedgerEntry) (db : Db) → IsUnique db.ledger → IsUnique (append e db).1.ledger
append-IsUnique e db u = elim (append_cases e db) [
  | inl same_db ↦ rw same_db u
  | inr (added, no_id, no_row) ↦ rw added (snoc-IsUnique db.ledger e u no_id no_row)
]

-- The ledger is append-only: a call leaves it as it was or adds the entry that it returns at the end.
pub append_only :
    (e : LedgerEntry) (db : Db)
    → ((append e db).1 ≡ db) ⊎ (append e db ≡ (ok e, record db { ledger = db.ledger ++ e ∷ [] }))
append_only e db = elim (append_cases e db) [
  | inl same_db ↦ inl same_db
  | inr (added, no_id, no_row) ↦ inr added
]
