-- ===== src/Store/Invoices.antt =====
-- The upserts of `sqlite_store.py`, and the order of `open_invoices`.
use Prim.Native.Nat.{max}
use code_zard.Prelude.{
  ℕ, zero, suc, ◌≤◌, String, true, Option, none, some, List, [], ◌∷◌, ◌≡◌, refl, arith,
  if◌then◌else◌, Bool-cases, inl, inr, take, keep, length, length-take, Each,
}
use code_zard.Prelude.Text.{same, same_iff}
use code_zard.Billing.Invoice.{Invoice, is_pending}
use code_zard.Store.{
  Db, upsert_invoice, put_invoice, find_invoice, invoice, insert_by_creation, sort_by_creation,
  open_invoices,
}

-- What an upsert leaves under its id: a row that was there keeps all of its terms.
abbrev pub settled_row : Invoice → Option Invoice → Invoice
settled_row i none = i
settled_row i (some row) = record row { status = i.status; tx_hash = i.tx_hash; payer = i.payer }

find_invoice-upsert_invoice :
    (i : Invoice) (id : String) (rows : List Invoice)
    → find_invoice id (upsert_invoice i rows) ≡ (
        if same i.id id
        then some (settled_row i (find_invoice i.id rows))
        else find_invoice id rows)
unfolding find_invoice upsert_invoice
find_invoice-upsert_invoice i id [] = refl
find_invoice-upsert_invoice i id (row ∷ rows) = ground (
  arith,
  find_invoice-upsert_invoice i id rows,
  same_iff row.id i.id,
  same_iff row.id id,
  same_iff i.id id,
)

-- Writing an invoice changes the status, the transaction and the payer of the row with its id and
-- nothing else of it, makes the row if there is none, and touches no other invoice.
pub invoice-put_invoice :
    (i : Invoice) (id : String) (db : Db)
    → invoice id (put_invoice i db).1
      ≡ (if same i.id id then some (settled_row i (invoice i.id db)) else invoice id db)
unfolding invoice put_invoice
invoice-put_invoice i id db = find_invoice-upsert_invoice i id db.invoices

-- Oldest first.
abbrev IsSorted : List Invoice → Type 0
IsSorted [] = Unit
IsSorted (i ∷ later) = Each (λ j. i.created_at ≤ j.created_at) later × IsSorted later

abbrev Later : ℕ → List Invoice → Type 0
Later t js = Each (λ j. t ≤ j.created_at) js

Later-weaken : (s t : ℕ) (js : List Invoice) → s ≤ t → Later t js → Later s js
Later-weaken s t [] h l = tt
Later-weaken s t (j ∷ js) h l = (omega arith, Later-weaken s t js h l.1)

Later-insert :
    (t : ℕ) (i : Invoice) (js : List Invoice)
    → t ≤ i.created_at
    → Later t js
    → Later t (insert_by_creation i js)
unfolding insert_by_creation
Later-insert t i [] h l = (h, tt)
Later-insert t i (j ∷ js) h l = ground (arith, Later-insert t i js h l.1)

insert-IsSorted :
    (i : Invoice) (js : List Invoice) → IsSorted js → IsSorted (insert_by_creation i js)
unfolding insert_by_creation
insert-IsSorted i [] s = (tt, tt)
insert-IsSorted i (j ∷ js) s = ground (
  arith,
  insert-IsSorted i js s.1,
  Later-insert j.created_at i js,
  Later-weaken i.created_at j.created_at js,
)

sort-IsSorted : (js : List Invoice) → IsSorted (sort_by_creation js)
unfolding sort_by_creation
sort-IsSorted [] = tt
sort-IsSorted (j ∷ js) = insert-IsSorted j (sort_by_creation js) (sort-IsSorted js)

Each-take {ℓ κ} :
    {A : Type ℓ} (P : A → Type κ) (n : ℕ) (xs : List A) → Each P xs → Each P (take n xs)
Each-take P zero xs h = tt
Each-take P (suc n) [] h = tt
Each-take P (suc n) (x ∷ xs) h = (h.0, Each-take P n xs h.1)

take-IsSorted : (n : ℕ) (js : List Invoice) → IsSorted js → IsSorted (take n js)
take-IsSorted zero js s = tt
take-IsSorted (suc n) [] s = tt
take-IsSorted (suc n) (j ∷ js) s =
    (Each-take (λ i. j.created_at ≤ i.created_at) n js s.0, take-IsSorted n js s.1)

abbrev Pending : List Invoice → Type 0
Pending js = Each (λ j. is_pending j.status ≡ true) js

insert-Pending :
    (i : Invoice) (js : List Invoice)
    → is_pending i.status ≡ true
    → Pending js
    → Pending (insert_by_creation i js)
unfolding insert_by_creation
insert-Pending i [] h p = (h, tt)
insert-Pending i (j ∷ js) h p = ground (arith, insert-Pending i js h p.1)

sort-Pending : (js : List Invoice) → Pending js → Pending (sort_by_creation js)
unfolding sort_by_creation
sort-Pending [] p = tt
sort-Pending (j ∷ js) p = insert-Pending j (sort_by_creation js) p.0 (sort-Pending js p.1)

keep-Pending : (js : List Invoice) → Pending (keep (λ i. is_pending i.status) js)
keep-Pending [] = tt
keep-Pending (j ∷ js) = elim (Bool-cases (is_pending j.status)) [
  | inl e ↦ rw (e, keep) (e, keep-Pending js)
  | inr e ↦ rw (e, keep) (keep-Pending js)
]

oldest :
    (n : ℕ) (rows : List Invoice)
    → let page = take n (sort_by_creation (keep (λ i. is_pending i.status) rows)) in
      Pending page × IsSorted page × (length page ≤ n)
oldest n rows =
    let kept = keep (λ i. is_pending i.status) rows in
    let sorted = sort_by_creation kept in
    (
      Each-take (λ j. is_pending j.status ≡ true) n sorted (sort-Pending kept (keep-Pending rows)),
      take-IsSorted n sorted (sort-IsSorted kept),
      omega (arith, length-take n sorted),
    )

-- The sweep sees open invoices only, the oldest first, and at most `max(1, limit)` of them.
open_invoices_lem :
    (limit : ℕ) (db : Db)
    → Pending (open_invoices limit db)
      × IsSorted (open_invoices limit db)
      × (length (open_invoices limit db) ≤ max 1 limit)
unfolding open_invoices
open_invoices_lem zero db = oldest 1 db.invoices
open_invoices_lem (suc n) db =
    let page = oldest (suc n) db.invoices in (page.0, page.1, omega (arith, page.2))
