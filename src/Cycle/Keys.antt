-- ===== src/Cycle/Keys.antt =====
-- src-tauri/src/lib.rs: which ids the maps of results hold.
use klaayguard.Prelude.{
  ◌≡◌, ◌⊎◌, inl, inr, refl, Bool, true, false, List, [], ◌∷◌, ◌++◌, Option, none, some, In,
  In-filter_map, ap, sym, is_empty, if◌then◌else◌, subst,
}
use klaayguard.Text.{Text, eq_text, Result, ok, err}
use klaayguard.Json.{Value, as_array}
use klaayguard.Config.{CollectionItem, osquery, builtin}
use klaayguard.Cycle.{
  Table, insert, extend, Run, not_started, exited, rows_of, execute_sql_batch, queries,
  native_results, collect, batch_results, JsonApiResource, resources, build_payload_items, as_query,
}

abbrev pub Key : Text → Table → Type 0
Key j t = (v : Value) × In (j, v) t

-- one of the two items with this id
abbrev pub Asked : Text → List CollectionItem → Type 0
Asked j items =
    ((sql : Text) × In (osquery j sql) items) ⊎ ((check : Text) × In (builtin j check) items)

later-Key : {j k : Text} {w : Value} (t : Table) → Key j t → Key j ((k, w) ∷ t)
later-Key t (v, m) = (v, inr m)

insert-Key : (j k : Text) (v : Value) (t : Table) → Key j (insert k v t) → (j ≡ k) ⊎ Key j t
unfolding insert
insert-Key j k v [] (w, inl q) = inl (ap (λ x. x.0) q)
insert-Key j k v [] (w, inr m) = absurd m
insert-Key j k v ((i, u) ∷ t) h = step (eq_text i k) (λ m. under (insert-Key j k v t m)) h
  where
    under : ((j ≡ k) ⊎ Key j t) → (j ≡ k) ⊎ Key j ((i, u) ∷ t)
    under (inl q) = inl q
    under (inr m) = inr (later-Key t m)

    step :
        (b : Bool)
        → (Key j (insert k v t) → (j ≡ k) ⊎ Key j ((i, u) ∷ t))
        → Key j (if b then (k, v) ∷ t else (i, u) ∷ insert k v t)
        → (j ≡ k) ⊎ Key j ((i, u) ∷ t)
    step true rest (w, inl q) = inl (ap (λ x. x.0) q)
    step true rest (w, inr m) = inr (w, inr m)
    step false rest (w, inl q) = inr (w, inl q)
    step false rest (w, inr m) = rest (w, m)

extend-Key : (j : Text) (t r : Table) → Key j (extend t r) → Key j t ⊎ Key j r
unfolding extend
extend-Key j t [] h = inl h
extend-Key j t ((k, v) ∷ r) h = elim (extend-Key j (insert k v t) r h) [
  | inl m ↦ elim (insert-Key j k v t m) [
    | inl q ↦ inr (v, inl (ap (λ x. (x, v)) q))
    | inr m' ↦ inl m'
  ]
  | inr m ↦ inr (later-Key r m)
]

execute_sql_batch-Key :
    (run : Text → Run) (j : Text) (qs : List (Text × Text)) (acc t : Table)
    → execute_sql_batch run qs acc ≡ ok t
    → Key j t
    → Key j acc ⊎ ((sql : Text) × In (j, sql) qs)
unfolding execute_sql_batch
execute_sql_batch-Key run j [] acc t e h =
    let same : acc ≡ t = cc e in inl (subst (Key j) (sym same) h)
execute_sql_batch-Key run j ((id, sql) ∷ qs) acc t e h =
    step (run sql) (λ acc' e'. execute_sql_batch-Key run j qs acc' t e' h) e
  where
    step :
        (r : Run)
        → ((acc' : Table)
            → execute_sql_batch run qs acc' ≡ ok t
            → Key j acc' ⊎ ((s : Text) × In (j, s) qs))
        → elim r [
          | not_started m ↦ err m
          | exited success parsed ↦
              execute_sql_batch run qs (insert id (rows_of success parsed) acc)
        ]
          ≡ ok t
        → Key j acc ⊎ ((s : Text) × In (j, s) ((id, sql) ∷ qs))
    step (not_started m) rest q = absurd (cc q)
    step (exited success parsed) rest q = elim (rest _ q) [
      | inl m ↦ elim (insert-Key j id _ acc m) [
        | inl p ↦ inr (sql, inl (ap (λ x. (x, sql)) p))
        | inr m' ↦ inl m'
      ]
      | inr (s, m) ↦ inr (s, inr m)
    ]

native_results-Key :
    (native : Text → Value) (j : Text) (items : List CollectionItem) (t : Table)
    → Key j (native_results native items t)
    → Key j t ⊎ ((check : Text) × In (builtin j check) items)
native_results-Key native j [] t h = inl h
native_results-Key native j (osquery id sql ∷ items) t h =
    elim (native_results-Key native j items t h) [ inl m ↦ inl m | inr (c, m) ↦ inr (c, inr m) ]
native_results-Key native j (builtin id check ∷ items) t h =
    elim (native_results-Key native j items (insert id (native check) t) h) [
      | inl m ↦ elim (insert-Key j id (native check) t m) [
        | inl p ↦ inr (check, inl (ap (λ x. builtin x check) p))
        | inr m' ↦ inl m'
      ]
      | inr (c, m) ↦ inr (c, inr m)
    ]

query-item : (j sql : Text) (it : CollectionItem) → as_query it ≡ some (j, sql) → osquery j sql ≡ it
query-item j sql (osquery id s) h = cc h
query-item j sql (builtin id c) h = absurd (cc h)

-- A collected id is that of an item that was asked for.
pub collect-Asked :
    (native : Text → Value) (run : Text → Run) (items : List CollectionItem) (j : Text)
    → Key j (collect native run items).0
    → Asked j items
unfolding collect
collect-Asked native run items j h =
    split (is_empty (queries items)) (execute_sql_batch run (queries items) []) refl h
  where
    from_native : Key j (native_results native items []) → Asked j items
    from_native m = elim (native_results-Key native j items [] m) [
      | inl (v, n) ↦ absurd n
      | inr c ↦ inr c
    ]

    from_query :
        (t : Table) → execute_sql_batch run (queries items) [] ≡ ok t → Key j t → Asked j items
    from_query t q m = elim (execute_sql_batch-Key run j (queries items) [] t q m) [
      | inl (v, n) ↦ absurd n
      | inr (sql, n) ↦
          let (it, there, same) = In-filter_map as_query (j, sql) items n in
          inl (sql, subst (λ x. In x items) (sym (query-item j sql it same)) there)
    ]

    split :
        (b : Bool) (r : Result Table)
        → execute_sql_batch run (queries items) [] ≡ r
        → Key j
            (if b
              then (native_results native items [], [])
              else batch_results (native_results native items []) r).0
        → Asked j items
    split true r q m = from_native m
    split false (ok rows) q m = elim (extend-Key j (native_results native items []) rows m) [
      | inl n ↦ from_native n
      | inr n ↦ from_query rows q n
    ]
    split false (err e) q m = from_native m

In-append :
    (r : JsonApiResource) (xs ys : List JsonApiResource) → In r (xs ++ ys) → In r xs ⊎ In r ys
In-append r [] ys h = inr h
In-append r (x ∷ xs) ys (inl q) = inl (inl q)
In-append r (x ∷ xs) ys (inr m) = elim (In-append r xs ys m) [ inl n ↦ inl (inr n) | inr n ↦ inr n ]

resources-kind :
    (collected_at table : Text) (r : JsonApiResource) (rows : List Value)
    → In r (resources collected_at table rows)
    → r.kind ≡ table
resources-kind at table r [] h = absurd h
resources-kind at table r (row ∷ rows) (inl q) = ap (λ x. x.kind) q
resources-kind at table r (row ∷ rows) (inr m) = resources-kind at table r rows m

-- A resource is named by an id of the map.
pub build_payload_items-Key :
    (collected_at : Text) (t : Table) (r : JsonApiResource)
    → In r (build_payload_items collected_at t)
    → Key r.kind t
unfolding build_payload_items
build_payload_items-Key at [] r h = absurd h
build_payload_items-Key at ((table, value) ∷ t) r h =
    step (as_array value) (λ m. later-Key t (build_payload_items-Key at t r m)) h
  where
    step :
        (o : Option (List Value))
        → (In r (build_payload_items at t) → Key r.kind ((table, value) ∷ t))
        → In r (elim o [
          | none ↦ build_payload_items at t
          | some rows ↦ resources at table rows ++ build_payload_items at t
        ])
        → Key r.kind ((table, value) ∷ t)
    step none rest m = rest m
    step (some rows) rest m = elim (In-append r (resources at table rows) _ m) [
      | inl n ↦ (value, inl (ap (λ x. (x, value)) (resources-kind at table r rows n)))
      | inr n ↦ rest n
    ]
