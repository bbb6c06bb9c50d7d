-- ===== src/Toluna/Replay/Order.antt =====
-- The rows of a query in an order and their keys (surveys/toluna_notifications.py
-- `_operational_notification_ids`).
use quant_tool.Base.{
  ℕ, zero, suc, ◌≤◌, ◌≡◌, refl, ap, sym, subst, ◌∙◌, Bool, true, false, ◌||◌, some, List, [], ◌∷◌,
  ◌++◌, map, ◌==◌, ==→eq, arith, inl, inr, Bool-cases,
}
use quant_tool.Base.Table.{Table, lookup}
use quant_tool.Base.Lists.{length, take, select, contains}
use quant_tool.Toluna.{Notification}
use quant_tool.Toluna.Replay.{from_keys, insert_row, order_by, key_of}

pub contains_++ : (k : ℕ) (xs ys : List ℕ) → contains k (xs ++ ys) ≡ contains k xs || contains k ys
contains_++ k [] ys = refl
contains_++ k (x ∷ xs) ys = ground (arith, contains_++ k xs ys)

pub take_all : (n : ℕ) (xs : List ℕ) → length xs ≤ n → take n xs ≡ xs
take_all zero [] h = refl
take_all zero (x ∷ xs) h = ground arith
take_all (suc n) [] h = refl
take_all (suc n) (x ∷ xs) h = rw (take_all n xs (ground arith)) refl

pub contains-from_keys :
    (k : ℕ) (seen keys : List ℕ)
    → contains k keys ≡ true
    → contains k seen ≡ false
    → contains k (from_keys seen keys) ≡ true
unfolding from_keys
contains-from_keys k seen [] h i = cc
contains-from_keys k seen (x ∷ keys) h i = elim (Bool-cases (x == k)) [
  | inl same ↦
      let unseen : contains x seen ≡ false =
        subst (λ y. contains y seen ≡ false) (sym (==→eq x k same)) i in
      rw (unseen, same) refl
  | inr other ↦ ground (arith, contains-from_keys k seen keys, contains-from_keys k (x ∷ seen) keys)
]

abbrev pub Before : Type 0
Before = ℕ × Notification → ℕ × Notification → Bool

pub contains-insert_row :
    (k : ℕ) (after : Before) (row : ℕ × Notification) (rows : Table Notification)
    → contains k (map key_of (insert_row after row rows))
      ≡ (row.0 == k) || contains k (map key_of rows)
unfolding insert_row
contains-insert_row k after row [] = refl
contains-insert_row k after row (other ∷ rows) =
    ground (arith, contains-insert_row k after row rows)

pub contains-order_by :
    (k : ℕ) (after : Before) (rows : Table Notification)
    → contains k (map key_of (order_by after rows)) ≡ contains k (map key_of rows)
unfolding order_by
contains-order_by k after [] = refl
contains-order_by k after (row ∷ rows) =
    ground
      (arith, contains-order_by k after rows, contains-insert_row k after row (order_by after rows))

pub length-insert_row :
    (after : Before) (row : ℕ × Notification) (rows : Table Notification)
    → length (map key_of (insert_row after row rows)) ≡ suc (length (map key_of rows))
unfolding insert_row
length-insert_row after row [] = refl
length-insert_row after row (other ∷ rows) = ground (arith, length-insert_row after row rows)

pub length-order_by :
    (after : Before) (rows : Table Notification)
    → length (map key_of (order_by after rows)) ≡ length rows
unfolding order_by
length-order_by after [] = refl
length-order_by after (row ∷ rows) =
    ground (arith, length-order_by after rows, length-insert_row after row (order_by after rows))

pub lookup-select :
    (p : ℕ × Notification → Bool) (k : ℕ) (n : Notification) (t : Table Notification)
    → lookup k t ≡ some n
    → p (k, n) ≡ true
    → lookup k (select p t) ≡ some n
lookup-select p k n [] e h = cc
lookup-select p k n ((j, m) ∷ t) e h = elim (Bool-cases (j == k)) [
  | inr other ↦ ground (arith, lookup-select p k n t)
  | inl same ↦
      let m_n : n ≡ m = ground (arith, e, same) in
      let passes : p (j, m) ≡ true =
        subst (λ y. p (y, m) ≡ true) (sym (==→eq j k same)) (subst (λ u. p (k, u) ≡ true) m_n h) in
      rw (passes, same) (ap some (sym m_n))
]

pub lookup-contains :
    (k : ℕ) (n : Notification) (t : Table Notification)
    → lookup k t ≡ some n
    → contains k (map key_of t) ≡ true
lookup-contains k n [] e = cc
lookup-contains k n ((j, m) ∷ t) e = ground (arith, lookup-contains k n t)

pub lookup-length :
    (k : ℕ) (n : Notification) (t : Table Notification) → lookup k t ≡ some n → 1 ≤ length t
lookup-length k n [] e = cc
lookup-length k n (row ∷ t) e = ground arith

-- The keys of the rows that pass the test, in an order.
abbrev pub keys_of : Before → (ℕ × Notification → Bool) → Table Notification → List ℕ
keys_of after p t = map key_of (order_by after (select p t))

pub keys_of-has :
    (after : Before) (p : ℕ × Notification → Bool) (k : ℕ) (n : Notification)
    (t : Table Notification)
    → lookup k t ≡ some n
    → p (k, n) ≡ true
    → contains k (keys_of after p t) ≡ true
keys_of-has after p k n t e h =
    contains-order_by k after (select p t)
    ∙ lookup-contains k n (select p t) (lookup-select p k n t e h)
