-- ===== src/Reconciler/Cancellation/Rows.antt =====
-- When a pass of control-plane/rlservice/reconciler.go finds a run cancelled: the rows that its
-- deletions leave in the table of resources.
use mathlib.Core.List.{Memᴰ}
use skyscale.Prelude.{
  ◌≡◌, ◌⊎◌, refl, sym, subst, inl, inr, String, Bool, true, false, not, ◌==◌, List, [], ◌∷◌, Option,
  none, some, Result, ok, err, Bool-cases, eq_iff, arith, All, eqb,
}
use skyscale.Reconciler.Types.{BackendResource, Gvr, ReconcileError}
use skyscale.Reconciler.Store.{
  Database, where_rows, insert_by, order_by, list_backend_resources, by_kind_and_name,
}
use skyscale.Reconciler.Monad.{Pass, ◌>>=◌, the_run, reads}
use skyscale.Reconciler.Environment.{Environment}
use skyscale.Reconciler.Ownership.{gvr_for_kind, delete_each, delete_owned}
use skyscale.Reconciler.Logic.{After, Same, resume-After, forget_error, reads-After}
use skyscale.Reconciler.Cancellation.{without_row, drop_at, drop_all, delete_each-Settles}

-- No row of a kind that the loop knows is left of the rows that it went through.
module _ (P : BackendResource → Type 0) where
  All-where_rows :
      (test : BackendResource → Bool) (rows : List BackendResource)
      → All P rows
      → All P (where_rows test rows)
  unfolding where_rows
  All-where_rows test [] h = tt
  All-where_rows test (r ∷ rows) (p, h) = elim (Bool-cases (test r)) [
    | inl e ↦ rw e (p, All-where_rows test rows h)
    | inr e ↦ rw e (All-where_rows test rows h)
  ]

  drop_at-All :
      (at : Option Gvr) (r : BackendResource) (rows : List BackendResource)
      → All P rows
      → All P (drop_at at r rows)
  unfolding drop_at without_row
  drop_at-All none r rows h = h
  drop_at-All (some gvr) r rows h = All-where_rows (λ q. not (eqb q.id r.id)) rows h

  drop_all-All : (rs rows : List BackendResource) → All P rows → All P (drop_all rs rows)
  unfolding drop_all
  drop_all-All [] rows h = h
  drop_all-All (r ∷ rs) rows h =
      drop_all-All rs (drop_at (gvr_for_kind r.kind) r rows)
        (drop_at-All (gvr_for_kind r.kind) r rows h)

-- The row is not one of a known kind with the id of `r`.
abbrev Misses : BackendResource → BackendResource → Type 0
Misses r q = (gvr_for_kind r.kind ≡ none) ⊎ (eqb q.id r.id ≡ false)

without_row-Misses :
    (r : BackendResource) (rows : List BackendResource) → All (Misses r) (without_row r rows)
unfolding without_row where_rows
without_row-Misses r [] = tt
without_row-Misses r (q ∷ rows) = elim (Bool-cases (eqb q.id r.id)) [
  | inl e ↦ rw e (without_row-Misses r rows)
  | inr e ↦ rw e (inr e, without_row-Misses r rows)
]

drop_at-Misses :
    (r : BackendResource) (at : Option Gvr) (rows : List BackendResource)
    → gvr_for_kind r.kind ≡ at
    → All (Misses r) (drop_at at r rows)
unfolding drop_at
drop_at-Misses r none rows e = unknown r rows e
  where
    unknown :
        (r : BackendResource) (rows : List BackendResource)
        → gvr_for_kind r.kind ≡ none
        → All (Misses r) rows
    unknown r [] e = tt
    unknown r (q ∷ rows) e = (inl e, unknown r rows e)
drop_at-Misses r (some gvr) rows e = without_row-Misses r rows

drop_all-Misses : (rs rows : List BackendResource) → All (λ r. All (Misses r) (drop_all rs rows)) rs
unfolding drop_all
drop_all-Misses [] rows = tt
drop_all-Misses (r ∷ rs) rows =
    let rest = drop_at (gvr_for_kind r.kind) r rows in
    (
      drop_all-All (Misses r) rs rest (drop_at-Misses r (gvr_for_kind r.kind) rows refl),
      drop_all-Misses rs rest,
    )

All-get : {A : Type 0} {x : A} (P : A → Type 0) (xs : List A) → All P xs → Memᴰ x xs → P x
All-get P [] h m = elim m [ ]
All-get P (y ∷ ys) h (Memᴰ.head e) = subst P (sym e) h.0
All-get P (y ∷ ys) h (Memᴰ.tail m) = All-get P ys h.1 m

insert_by-head :
    (before : BackendResource → BackendResource → Bool) (x : BackendResource)
    (ys : List BackendResource)
    → Memᴰ x (insert_by before x ys)
unfolding insert_by
insert_by-head before x [] = Memᴰ.head refl
insert_by-head before x (y ∷ ys) = elim (Bool-cases (before x y)) [
  | inl e ↦ rw e (Memᴰ.head refl)
  | inr e ↦ rw e (Memᴰ.tail (insert_by-head before x ys))
]

insert_by-tail :
    (before : BackendResource → BackendResource → Bool) (x q : BackendResource)
    (ys : List BackendResource)
    → Memᴰ q ys
    → Memᴰ q (insert_by before x ys)
unfolding insert_by
insert_by-tail before x q [] m = elim m [ ]
insert_by-tail before x q (y ∷ ys) (Memᴰ.head e) = elim (Bool-cases (before x y)) [
  | inl b ↦ rw b (Memᴰ.tail (Memᴰ.head e))
  | inr b ↦ rw b (Memᴰ.head e)
]
insert_by-tail before x q (y ∷ ys) (Memᴰ.tail m) = elim (Bool-cases (before x y)) [
  | inl b ↦ rw b (Memᴰ.tail (Memᴰ.tail m))
  | inr b ↦ rw b (Memᴰ.tail (insert_by-tail before x q ys m))
]

mem-order_by :
    (before : BackendResource → BackendResource → Bool) (q : BackendResource)
    (xs : List BackendResource)
    → Memᴰ q xs
    → Memᴰ q (order_by before xs)
unfolding order_by
mem-order_by before q [] m = elim m [ ]
mem-order_by before q (x ∷ xs) (Memᴰ.head e) =
    subst (λ y. Memᴰ y (insert_by before x (order_by before xs))) (sym e)
      (insert_by-head before x (order_by before xs))
mem-order_by before q (x ∷ xs) (Memᴰ.tail m) =
    insert_by-tail before x q (order_by before xs) (mem-order_by before q xs m)

mem-where_rows :
    (test : BackendResource → Bool) (q : BackendResource) (rows : List BackendResource)
    → test q ≡ true
    → Memᴰ q rows
    → Memᴰ q (where_rows test rows)
unfolding where_rows
mem-where_rows test q [] t m = elim m [ ]
mem-where_rows test q (r ∷ rows) t (Memᴰ.head e) = rw (subst (λ y. test y ≡ true) e t) (Memᴰ.head e)
mem-where_rows test q (r ∷ rows) t (Memᴰ.tail m) = elim (Bool-cases (test r)) [
  | inl b ↦ rw b (Memᴰ.tail (mem-where_rows test q rows t m))
  | inr b ↦ rw b (mem-where_rows test q rows t m)
]

-- Of the rows of the run, the loop goes through each.
abbrev Listed : String → List BackendResource → BackendResource → Type 0
Listed id rs q = q.run_id ≡ id → Memᴰ q rs

all_Listed :
    (id : String) (db : Database) (rows : List BackendResource)
    → ((q : BackendResource) → Memᴰ q rows → Memᴰ q db.resources)
    → All (Listed id (list_backend_resources id db)) rows
unfolding list_backend_resources
all_Listed id db [] h = tt
all_Listed id db (q ∷ rows) h = (
  λ own. mem-order_by by_kind_and_name q (where_rows (λ r. r.run_id == id) db.resources) (
      mem-where_rows (λ r. r.run_id == id) q db.resources ((eq_iff q.run_id id).1 own)
        (h q (Memᴰ.head refl))),
  all_Listed id db rows (λ r m. h r (Memᴰ.tail m)),
)

-- A row that is not of the run, or of a kind that the reconciler knows nothing of.
abbrev pub IsLeft : String → BackendResource → Type 0
IsLeft id q = q.run_id ≡ id → gvr_for_kind q.kind ≡ none

only_unknown : (q : BackendResource) → Misses q q → gvr_for_kind q.kind ≡ none
only_unknown q (inl e) = e
only_unknown q (inr e) = absurd (ground arith)

tails :
    (rs : List BackendResource) (q : BackendResource) (rows : List BackendResource)
    → All (λ r. All (Misses r) (q ∷ rows)) rs
    → All (λ r. All (Misses r) rows) rs
tails [] q rows h = tt
tails (r ∷ rs) q rows h = (h.0.1, tails rs q rows h.1)

all_IsLeft :
    (id : String) (rs rows : List BackendResource)
    → All (Listed id rs) rows
    → All (λ r. All (Misses r) rows) rs
    → All (IsLeft id) rows
all_IsLeft id rs [] l m = tt
all_IsLeft id rs (q ∷ rows) l m = (
  λ own. only_unknown q (All-get (λ r. All (Misses r) (q ∷ rows)) rs m (l.0 own)).0,
  all_IsLeft id rs rows l.1 (tails rs q rows m),
)

drop_all-IsLeft :
    (id : String) (db : Database)
    → All (IsLeft id) (drop_all (list_backend_resources id db) db.resources)
drop_all-IsLeft id db =
    let rs = list_backend_resources id db in
    all_IsLeft id rs (drop_all rs db.resources)
      (drop_all-All (Listed id rs) rs db.resources (all_Listed id db db.resources (λ q m. m)))
      (drop_all-Misses rs db.resources)

module _ {K : Type 0} (env : Environment K) where
  pub delete_owned-IsLeft :
      (s : Pass K)
      → After
          (λ b t. b ≡ true → All (IsLeft s.run.id) t.db.resources)
          (λ _. Unit {0})
          (delete_owned env s)
  unfolding delete_owned the_run ◌>>=◌
  delete_owned-IsLeft s =
      let id = s.run.id in
      resume-After
        (λ rs t.
          Same s t
          × ◌≡◌ {A = Result ReconcileError (List BackendResource)}
              (ok (list_backend_resources id s.db)) (ok rs))
        (λ b t. b ≡ true → All (IsLeft id) t.db.resources) (λ _. Unit {0})
        (reads (λ db. ok (list_backend_resources id db)) s) (delete_each env id true)
        (forget_error {A = List BackendResource}
          (λ rs t.
            Same s t
            × ◌≡◌ {A = Result ReconcileError (List BackendResource)}
                (ok (list_backend_resources id s.db)) (ok rs))
          (Same s) (reads (λ db. ok (list_backend_resources id db)) s)
          (reads-After (λ db. ok (list_backend_resources id db)) s))
        (λ rs t q.
          left_of id rs t q.0 q.1 (delete_each env id true rs t)
            (delete_each-Settles env id true rs t))
    where
      left_of :
          (id : String) (rs : List BackendResource) (t : Pass K)
          → Same s t
          → ◌≡◌ {A = Result ReconcileError (List BackendResource)}
              (ok (list_backend_resources id s.db))
              (ok rs)
          → (r : Pass K × Result ReconcileError Bool)
          → After
              (λ b u. b ≡ true → (true ≡ true) × (u.db.resources ≡ drop_all rs t.db.resources))
              (λ _. Unit {0})
              r
          → After (λ b u. b ≡ true → All (IsLeft id) u.db.resources) (λ _. Unit {0}) r
      left_of id rs t same e (u, err x) h = tt
      left_of id rs t same e (u, ok b) h = λ yes.
          let listed : list_backend_resources id s.db ≡ rs = cc in
          subst (All (IsLeft id)) (sym (h yes).1) (
            subst (λ l. All (IsLeft id) (drop_all l t.db.resources)) listed
              (subst
                (λ db. All (IsLeft id) (drop_all (list_backend_resources id s.db) db.resources))
                (sym same.db) (drop_all-IsLeft id s.db)))
