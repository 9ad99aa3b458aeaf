-- ===== src/Finance/Imports/Again.antt =====
-- finance/imports/csv_import.py: every row is accounted for, and an import that is made again.
use mathlib.Core.List.{append_assoc, append-nil}
use kanna_pa.Prelude.{
  ℕ, ◌+◌, String, ◌≡◌, refl, sym, ap, subst, ◌∙◌, true, Option, none, some, List, [], ◌∷◌, ◌++◌,
  length, length-append, All, arith, ==_iff, Bool-cases, inl, inr,
}
use kanna_pa.Finance.Models.{Transaction}
use kanna_pa.Finance.Books.{Books, Digest, hash_of, exists_with_hash}
use kanna_pa.Finance.Imports.{
  Library, ImportError, ImportResult, no_result, ColumnMap, CsvRow, Reading, bad, good, read_row,
  categorised, store, store_reading, import_rows, import_csv,
}

exists-append :
    (g : Digest) (h : ℕ) (txs more : List Transaction)
    → exists_with_hash g h txs ≡ true
    → exists_with_hash g h (txs ++ more) ≡ true
unfolding exists_with_hash
exists-append g h [] more e = absurd (cc)
exists-append g h (tx ∷ txs) more e = ground (arith, exists-append g h txs more)

exists_last :
    (g : Digest) (tx : Transaction) (txs : List Transaction)
    → exists_with_hash g (hash_of g tx) (txs ++ tx ∷ []) ≡ true
unfolding exists_with_hash
exists_last g tx [] = ground (arith, ==_iff (hash_of g tx) (hash_of g tx))
exists_last g tx (q ∷ txs) = ground (arith, exists_last g tx txs)

-- The result and the tables after some rows that were stored.
abbrev Stored : Type 0
Stored = ImportResult × Books

-- The rows were all counted, and what was created stands behind the old rows.
pub record Accounts (rows : ℕ) (old : List Transaction) (s : Stored) : Type 0 where
  pub counted : s.0.created + s.0.skipped_duplicates + length s.0.errors ≡ rows
  pub created : s.0.created ≡ length s.0.created_transactions
  pub added : s.1.transactions ≡ old ++ s.0.created_transactions

module _ (lib : Library) (columns : ColumnMap) (currency source : String) where
  abbrev one : ℕ → CsvRow → Stored → Stored
  one n row s =
      store_reading lib columns currency source n (read_row lib columns currency source row) s

  abbrev loop : ℕ → List CsvRow → Stored → Stored
  loop n rows s = import_rows lib columns currency source n rows s

  categorised-hash :
      (name : Option String) (tx : Transaction) (b : Books)
      → hash_of lib.digest (categorised lib columns currency source name tx b).0
        ≡ hash_of lib.digest tx
  categorised-hash none tx b = refl
  categorised-hash (some name) tx b = refl

  categorised-transactions :
      (name : Option String) (tx : Transaction) (b : Books)
      → (categorised lib columns currency source name tx b).1.transactions ≡ b.transactions
  categorised-transactions none tx b = refl
  categorised-transactions (some name) tx b = refl

  store-Accounts :
      (n : ℕ) (old : List Transaction) (tx : Transaction) (s : Stored)
      → Accounts n old s
      → Accounts (n + 1) old (store lib.digest tx s)
  unfolding store
  store-Accounts n old tx (r, b) a =
      elim (Bool-cases (exists_with_hash lib.digest (hash_of lib.digest tx) b.transactions)) [
        | inl there ↦
            rw (there, store)
              (record { counted = omega (arith, a.counted); created = a.created; added = a.added })
        | inr new ↦
            rw (new, store)
              (record {
                counted = omega (arith, a.counted);
                created = omega (arith, a.created, length-append r.created_transactions (tx ∷ []));
                added =
                    ap (λ x. x ++ tx ∷ []) a.added
                    ∙ append_assoc old r.created_transactions (tx ∷ []);
              })
      ]

  one-Accounts :
      (n k : ℕ) (old : List Transaction) (x : Reading) (s : Stored)
      → Accounts k old s
      → Accounts (k + 1) old (store_reading lib columns currency source n x s)
  one-Accounts n k old (bad text) (r, b) a = record {
    counted =
        omega
          (arith, a.counted, length-append r.errors (record { row_number = n; error = text } ∷ []));
    created = a.created;
    added = a.added;
  }
  one-Accounts n k old (good tx name) (r, b) a =
      store-Accounts k old _ (r, (categorised lib columns currency source name tx b).1)
        (record {
          counted = a.counted;
          created = a.created;
          added = categorised-transactions name tx b ∙ a.added;
        })

  loop-Accounts :
      (n k : ℕ) (old : List Transaction) (rows : List CsvRow) (s : Stored)
      → Accounts k old s
      → Accounts (k + length rows) old (loop n rows s)
  unfolding import_rows
  loop-Accounts n k old [] s a = subst (λ x. Accounts x old s) (omega arith) a
  loop-Accounts n k old (row ∷ rows) s a =
      subst (λ x. Accounts x old (loop n (row ∷ rows) s)) (omega arith)
        (loop-Accounts (n + 1) (k + 1) old rows (one n row s)
          (one-Accounts n k old (read_row lib columns currency source row) s a))

  -- Every row of the file is created, skipped as a duplicate or reported as an error; what is created
  -- stands behind the transactions that were there, which stay as they are.
  pub import_csv-Accounts :
      (rows : List CsvRow) (b : Books)
      → Accounts (length rows) b.transactions (import_csv lib columns currency source rows b)
  unfolding import_csv
  import_csv-Accounts rows b =
      subst (λ x. Accounts x b.transactions (loop 2 rows (no_result, b))) (omega arith)
        (loop-Accounts 2 0 b.transactions rows (no_result, b)
          (record { counted = refl; created = refl; added = sym (append-nil b.transactions) }))

  -- The errors of the rows, whatever the tables hold, and the number of the others.
  abbrev errors_of : ℕ → Reading → List ImportError
  errors_of n (bad text) = record { row_number = n; error = text } ∷ []
  errors_of n (good tx name) = []

  row_errors : ℕ → List CsvRow → List ImportError
  row_errors n [] = []
  row_errors n (row ∷ rows) =
      errors_of n (read_row lib columns currency source row) ++ row_errors (n + 1) rows

  store-errors : (tx : Transaction) (s : Stored) → (store lib.digest tx s).0.errors ≡ s.0.errors
  unfolding store
  store-errors tx (r, b) =
      elim (Bool-cases (exists_with_hash lib.digest (hash_of lib.digest tx) b.transactions)) [
        | inl there ↦ rw (there, store) refl
        | inr new ↦ rw (new, store) refl
      ]

  one-errors :
      (n : ℕ) (x : Reading) (s : Stored)
      → (store_reading lib columns currency source n x s).0.errors ≡ s.0.errors ++ errors_of n x
  one-errors n (bad text) (r, b) = refl
  one-errors n (good tx name) (r, b) = store-errors _ (r, _) ∙ sym (append-nil r.errors)

  loop-errors :
      (n : ℕ) (rows : List CsvRow) (s : Stored)
      → (loop n rows s).0.errors ≡ s.0.errors ++ row_errors n rows
  unfolding import_rows row_errors
  loop-errors n [] s = sym (append-nil s.0.errors)
  loop-errors n (row ∷ rows) s =
      let x = read_row lib columns currency source row in
      loop-errors (n + 1) rows (one n row s)
      ∙ ap (λ e. e ++ row_errors (n + 1) rows) (one-errors n x s)
      ∙ append_assoc s.0.errors (errors_of n x) (row_errors (n + 1) rows)

  -- The row is an error, or a row of its hash is there.
  abbrev Known : List Transaction → Reading → Type 0
  Known txs (bad text) = Unit {0}
  Known txs (good tx name) = exists_with_hash lib.digest (hash_of lib.digest tx) txs ≡ true

  store-keeps :
      (h : ℕ) (tx : Transaction) (s : Stored)
      → exists_with_hash lib.digest h s.1.transactions ≡ true
      → exists_with_hash lib.digest h (store lib.digest tx s).1.transactions ≡ true
  unfolding store
  store-keeps h tx (r, b) e =
      elim (Bool-cases (exists_with_hash lib.digest (hash_of lib.digest tx) b.transactions)) [
        | inl there ↦ rw (there, store) e
        | inr new ↦ rw (new, store) (exists-append lib.digest h b.transactions (tx ∷ []) e)
      ]

  store_known :
      (tx : Transaction) (s : Stored)
      → exists_with_hash lib.digest (hash_of lib.digest tx) (store lib.digest tx s).1.transactions
        ≡ true
  unfolding store
  store_known tx (r, b) =
      elim (Bool-cases (exists_with_hash lib.digest (hash_of lib.digest tx) b.transactions)) [
        | inl there ↦ rw (there, store) there
        | inr new ↦ rw (new, store) (exists_last lib.digest tx b.transactions)
      ]

  one-keeps :
      (h n : ℕ) (x : Reading) (s : Stored)
      → exists_with_hash lib.digest h s.1.transactions ≡ true
      → exists_with_hash lib.digest h
          (store_reading lib columns currency source n x s).1.transactions
        ≡ true
  one-keeps h n (bad text) (r, b) e = e
  one-keeps h n (good tx name) (r, b) e =
      store-keeps h _ (r, _)
        (subst (λ x. exists_with_hash lib.digest h x ≡ true)
          (sym (categorised-transactions name tx b)) e)

  loop-keeps :
      (h n : ℕ) (rows : List CsvRow) (s : Stored)
      → exists_with_hash lib.digest h s.1.transactions ≡ true
      → exists_with_hash lib.digest h (loop n rows s).1.transactions ≡ true
  unfolding import_rows
  loop-keeps h n [] s e = e
  loop-keeps h n (row ∷ rows) s e =
      loop-keeps h (n + 1) rows (one n row s)
        (one-keeps h n (read_row lib columns currency source row) s e)

  one-Known :
      (n : ℕ) (x : Reading) (s : Stored)
      → Known (store_reading lib columns currency source n x s).1.transactions x
  one-Known n (bad text) (r, b) = tt
  one-Known n (good tx name) (r, b) =
      let (tx', b') = categorised lib columns currency source name tx b in
      subst
        (λ h. exists_with_hash lib.digest h (store lib.digest tx' (r, b')).1.transactions ≡ true)
        (categorised-hash name tx b) (store_known tx' (r, b'))

  later-Known :
      (n : ℕ) (rows : List CsvRow) (x : Reading) (s : Stored)
      → Known s.1.transactions x
      → Known (loop n rows s).1.transactions x
  later-Known n rows (bad text) s k = tt
  later-Known n rows (good tx name) s k = loop-keeps (hash_of lib.digest tx) n rows s k

  abbrev AllKnown : List Transaction → List CsvRow → Type 0
  AllKnown txs rows = All (λ row. Known txs (read_row lib columns currency source row)) rows

  loop-AllKnown :
      (n : ℕ) (rows : List CsvRow) (s : Stored) → AllKnown (loop n rows s).1.transactions rows
  unfolding import_rows
  loop-AllKnown n [] s = tt
  loop-AllKnown n (row ∷ rows) s =
      let x = read_row lib columns currency source row in
      (
        later-Known (n + 1) rows x (one n row s) (one-Known n x s),
        loop-AllKnown (n + 1) rows (one n row s),
      )

  -- Nothing is created, and the transactions stay.
  abbrev Quiet : Stored → Stored → Type 0
  Quiet s t = (t.1.transactions ≡ s.1.transactions) × (t.0.created ≡ s.0.created)

  one-Quiet :
      (n : ℕ) (x : Reading) (s : Stored)
      → Known s.1.transactions x
      → Quiet s (store_reading lib columns currency source n x s)
  unfolding store
  one-Quiet n (bad text) (r, b) k = (refl, refl)
  one-Quiet n (good tx none) (r, b) k = (rw (k, store) refl, rw (k, store) refl)
  one-Quiet n (good tx (some name)) (r, b) k = (rw (k, store) refl, rw (k, store) refl)

  loop-Quiet :
      (n : ℕ) (rows : List CsvRow) (s : Stored)
      → AllKnown s.1.transactions rows
      → Quiet s (loop n rows s)
  unfolding import_rows
  loop-Quiet n [] s k = (refl, refl)
  loop-Quiet n (row ∷ rows) s k =
      let x = read_row lib columns currency source row in
      let (same, count) = one-Quiet n x s k.0 in
      let (same', count') =
        loop-Quiet (n + 1) rows (one n row s) (subst (λ t. AllKnown t rows) (sym same) k.1) in
      (same' ∙ same, count' ∙ count)

  -- What a second import of the same rows comes to.
  pub record IsRepeat (first second : Stored) : Type 0 where
    pub nothing_created : second.0.created ≡ 0
    pub same_transactions : second.1.transactions ≡ first.1.transactions
    pub same_errors : second.0.errors ≡ first.0.errors
    pub all_skipped : second.0.skipped_duplicates ≡ first.0.created + first.0.skipped_duplicates

  -- Importing the same rows once more creates nothing and leaves the transactions as they are: it
  -- reports the same errors, and skips every row that was created or skipped before.
  pub import_csv-IsRepeat :
      (rows : List CsvRow) (b : Books)
      → IsRepeat (import_csv lib columns currency source rows b) (
          import_csv lib columns currency source rows
            (import_csv lib columns currency source rows b).1)
  unfolding import_csv
  import_csv-IsRepeat rows b =
      let first = loop 2 rows (no_result, b) in
      let second = loop 2 rows (no_result, first.1) in
      let (same, none_made) =
        loop-Quiet 2 rows (no_result, first.1) (loop-AllKnown 2 rows (no_result, b)) in
      let errors : second.0.errors ≡ first.0.errors =
        loop-errors 2 rows (no_result, first.1) ∙ sym (loop-errors 2 rows (no_result, b)) in
      let a = import_csv-Accounts rows b in
      let c = import_csv-Accounts rows first.1 in
      record {
        nothing_created = none_made;
        same_transactions = same;
        same_errors = errors;
        all_skipped =
            omega (arith, a.counted, c.counted, none_made, ap (length {A = ImportError}) errors);
      }
