-- ===== src/Http/Portal/Grouping.antt =====
-- The ledger of an intent, grouped by transaction (`ledger` of
-- nem_pay/api/internal/httpapi/portal_reads.go).
use monorepo_payment.Base.{
  ◌≡◌, refl, sym, ◌∙◌, ap, subst, Bool, true, false, Option, none, some, List, [], ◌∷◌, ◌++◌,
  append_assoc, append-nil, map, ◌==◌, ==_eq, if◌then◌else◌, find?, select, update_where, arith,
  Distinct, Distinct-add, IsNew, map-update_where, find?-update_where, find?-append_none,
  Bool-cases, inl, inr,
}
use monorepo_payment.Db.{Uuid}
use monorepo_payment.Http.Portal.{LedgerRow, Txn, txn_of, put_row, add_row, group_rows}

module _ {E : Type 0} where
  abbrev of_found : Option (Txn E) → List E
  of_found none = []
  of_found (some t) = t.entries

  -- The entries that are shown for a transaction.
  abbrev pub entries_of : Uuid → List (Txn E) → List E
  entries_of n txns = of_found (find? (λ t. t.id == n) txns)

  -- The entries of the rows of a transaction.
  abbrev pub rows_of : Uuid → List (LedgerRow E) → List E
  rows_of n rows = map (λ r. r.entry) (select (λ r. r.transaction_id == n) rows)

  none-IsNew :
      (n : Uuid) (txns : List (Txn E))
      → find? (λ t. t.id == n) txns ≡ none
      → IsNew n (map (λ t. t.id) txns)
  none-IsNew n [] h = tt
  none-IsNew n (t ∷ txns) h = elim (Bool-cases (t.id == n)) [
    | inl e ↦ absurd (ground (arith, e, h))
    | inr e ↦ (ground (arith, e), none-IsNew n txns (ground (arith, e, h)))
  ]

  update-other :
      (n k : Uuid) (f : Txn E → Txn E)
      → ((t : Txn E) → (f t).id ≡ t.id)
      → (n == k) ≡ false
      → (txns : List (Txn E))
      → find? (λ t. t.id == k) (update_where (λ t. t.id == n) f txns) ≡ find? (λ t. t.id == k) txns
  update-other n k f keeps ne [] = refl
  update-other n k f keeps ne (t ∷ txns) = ground (arith, keeps t, update-other n k f keeps ne txns)

  append-other :
      (k : Uuid) (a : Txn E)
      → (a.id == k) ≡ false
      → (txns : List (Txn E))
      → find? (λ t. t.id == k) (txns ++ a ∷ []) ≡ find? (λ t. t.id == k) txns
  append-other k a ne [] = ground (arith, ne)
  append-other k a ne (t ∷ txns) = ground (arith, append-other k a ne txns)

  put_row-entries :
      (txns : List (Txn E)) (r : LedgerRow E) (n : Uuid) (b : Bool)
      → (r.transaction_id == n) ≡ b
      → (o : Option (Txn E)) → find? (λ t. t.id == r.transaction_id) txns ≡ o
      → entries_of n (put_row txns r o) ≡ entries_of n txns ++ (if b then r.entry ∷ [] else [])
  put_row-entries txns r n true same none h =
      let e : r.transaction_id ≡ n = ==_eq r.transaction_id n same in
      let missing : find? (λ t. t.id == n) txns ≡ none =
        subst (λ i. find? (λ t. t.id == i) txns ≡ none) e h in
      let new : Txn E = txn_of r in
      let here : find? (λ t. t.id == n) (new ∷ []) ≡ some new = ground (arith, same) in
      ap of_found (find?-append_none (λ t. t.id == n) txns (new ∷ []) missing ∙ here)
      ∙ ap (λ o. of_found o ++ r.entry ∷ []) (sym missing)
  put_row-entries txns r n false other none h =
      ap of_found (append-other n (txn_of r) other txns) ∙ sym (append-nil (entries_of n txns))
  put_row-entries txns r n true same (some t) h =
      let e : r.transaction_id ≡ n = ==_eq r.transaction_id n same in
      let f : Txn E → Txn E = λ x. record x { entries = x.entries ++ r.entry ∷ [] } in
      subst
        (λ i.
          entries_of i (update_where (λ x. x.id == r.transaction_id) f txns)
          ≡ entries_of i txns ++ r.entry ∷ [])
        e
        (ap of_found (find?-update_where (λ x. x.id) f (λ _. refl) r.transaction_id txns t h)
          ∙ ap (λ o. of_found o ++ r.entry ∷ []) (sym h))
  put_row-entries txns r n false other (some t) h =
      ap of_found (
        update-other r.transaction_id n (λ x. record x { entries = x.entries ++ r.entry ∷ [] })
          (λ _. refl) other txns)
      ∙ sym (append-nil (entries_of n txns))

  put_row-Distinct :
      (txns : List (Txn E)) (r : LedgerRow E) (o : Option (Txn E))
      → find? (λ t. t.id == r.transaction_id) txns ≡ o
      → Distinct (map (λ t. t.id) txns)
      → Distinct (map (λ t. t.id) (put_row txns r o))
  put_row-Distinct txns r none h d =
      Distinct-add (λ t. t.id) txns (txn_of r) d (none-IsNew r.transaction_id txns h)
  put_row-Distinct txns r (some t) h d =
      subst Distinct
        (sym (
          map-update_where (λ t. t.id) (λ x. record x { entries = x.entries ++ r.entry ∷ [] })
            (λ _. refl) (λ t. t.id == r.transaction_id) txns))
        d

  rows_of-cons :
      (n : Uuid) (r : LedgerRow E) (rs : List (LedgerRow E))
      → rows_of n (r ∷ rs) ≡ (if r.transaction_id == n then r.entry ∷ [] else []) ++ rows_of n rs
  rows_of-cons n r rs = go (r.transaction_id == n)
    where
      go :
          (b : Bool)
          → map
              (λ r. r.entry)
              (if b
                then r ∷ select (λ r. r.transaction_id == n) rs
                else select (λ r. r.transaction_id == n) rs)
            ≡ (if b then r.entry ∷ [] else []) ++ rows_of n rs
      go true = refl
      go false = refl

  group_rows-onto :
      (txns : List (Txn E)) (rows : List (LedgerRow E)) (n : Uuid)
      → entries_of n (group_rows txns rows) ≡ entries_of n txns ++ rows_of n rows
  unfolding group_rows
  group_rows-onto txns [] n = sym (append-nil (entries_of n txns))
  group_rows-onto txns (r ∷ rs) n =
      group_rows-onto (add_row txns r) rs n
      ∙ ap (λ l. l ++ rows_of n rs)
          (put_row-entries txns r n (r.transaction_id == n) refl
            (find? (λ t. t.id == r.transaction_id) txns) refl)
      ∙ append_assoc (entries_of n txns) (if r.transaction_id == n then r.entry ∷ [] else [])
          (rows_of n rs)
      ∙ ap (λ l. entries_of n txns ++ l) (sym (rows_of-cons n r rs))

  group_rows-Distinct :
      (txns : List (Txn E)) (rows : List (LedgerRow E))
      → Distinct (map (λ t. t.id) txns)
      → Distinct (map (λ t. t.id) (group_rows txns rows))
  unfolding group_rows
  group_rows-Distinct txns [] d = d
  group_rows-Distinct txns (r ∷ rs) d =
      group_rows-Distinct (add_row txns r) rs
        (put_row-Distinct txns r (find? (λ t. t.id == r.transaction_id) txns) refl d)

-- Grouping the rows of a ledger shows each transaction once, and for each transaction exactly the
-- entries of its rows, in their order.
pub group_rows-entries :
    {E : Type 0} (rows : List (LedgerRow E))
    → Distinct (map (λ t. t.id) (group_rows [] rows))
      × ((n : Uuid) → entries_of n (group_rows [] rows) ≡ rows_of n rows)
group_rows-entries rows = (group_rows-Distinct [] rows tt, λ n. group_rows-onto [] rows n)
