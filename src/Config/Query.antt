-- ===== src/Config/Query.antt =====
-- What the gate `is_read_only_query` lets through.
use klaayguard.Prelude.{
  ℕ, ◌≡◌, refl, ◌++◌, ◌∷◌, [], Bool, true, false, not, ◌||◌, List, arith, ◌==◌, all, any, map,
  Bool-cases, inl, inr, append_assoc, ◌∙◌, sym, ap, ◌⊎◌, if◌then◌else◌,
}
use klaayguard.Text.{
  Text, codes, trim, trim_end_matches, contains_char, to_ascii_lowercase, starts_with, push_first,
  split_by, one_of, eq_text, is_whitespace, lower,
}
use klaayguard.Text.Laws.{trim_end_by_split, all-append, all_weaken, trim-Trimmed}
use klaayguard.Text.Split.{
  any-split_by-append_end, any-split_by-append_start, any-split_by_word, ends_in, begins_with,
}
use klaayguard.Config.{is_separator, verbs, statement, is_read_only_query}

-- White space or `;`.
abbrev pub is_tail : ℕ → Bool
is_tail c = is_whitespace c || c == b';'

-- `sql` is one statement that reads, between white space and a tail of white space and `;`.
pub record IsOneStatement (sql : Text) : Type 0 where
  pub lead : Text
  pub body : Text
  pub tail : Text
  pub splits : sql ≡ lead ++ (body ++ tail)
  pub lead_blank : all is_whitespace lead ≡ true
  pub tail_blank : all is_tail tail ≡ true
  pub single : contains_char body b';' ≡ false
  pub reads :
      (starts_with (to_ascii_lowercase body) (codes "select") ≡ true)
      ⊎ (starts_with (to_ascii_lowercase body) (codes "with") ≡ true)

-- What the three trims cut off.
record Cut (sql : Text) : Type 0 where
  lead : Text
  tail : Text
  splits : sql ≡ lead ++ (statement sql ++ tail)
  lead_blank : all is_whitespace lead ≡ true
  tail_blank : all is_tail tail ≡ true

nested :
    {s T I : Text} (S a b c d e : Text)
    → s ≡ a ++ (T ++ b)
    → T ≡ I ++ c
    → I ≡ d ++ (S ++ e)
    → s ≡ (a ++ d) ++ (S ++ (e ++ (c ++ b)))
nested S a b c d e h k l = h ∙ rw k (rw l (simp append_assoc))

blank-tail : (s : Text) → all is_whitespace s ≡ true → all is_tail s ≡ true
blank-tail s = all_weaken is_whitespace is_tail s (λ c h. ground arith)

semicolons-tail : (s : Text) → all (λ d. d == b';') s ≡ true → all is_tail s ≡ true
semicolons-tail s = all_weaken (λ d. d == b';') is_tail s (λ c h. ground arith)

statement-Cut : (sql : Text) → Cut sql
statement-Cut sql =
    let (c, sc, gc) = trim_end_by_split (λ d. d == b';') (trim sql) in
    let inner = trim_end_matches b';' (trim sql) in
    record {
      lead = (trim-Trimmed sql).lead ++ (trim-Trimmed inner).lead;
      tail = (trim-Trimmed inner).tail ++ (c ++ (trim-Trimmed sql).tail);
      splits = nested _ _ _ _ _ _ (trim-Trimmed sql).splits sc (trim-Trimmed inner).splits;
      lead_blank = rw all-append (ground (arith, trim-Trimmed sql, trim-Trimmed inner));
      tail_blank = rw all-append (
          rw all-append (
            ground (
              arith,
              blank-tail _ (trim-Trimmed inner).tail_blank,
              semicolons-tail c gc,
              blank-tail _ (trim-Trimmed sql).tail_blank,
            )));
    }

-- the three tests of the gate
gate :
    (stacked select with word : Bool)
    → (if stacked then false else if not (select || with) then false else not word) ≡ true
    → (stacked ≡ false) × ((select ≡ true) ⊎ (with ≡ true)) × (word ≡ false)
gate stacked select with word h = ground arith

passed :
    (sql : Text)
    → is_read_only_query sql ≡ true
    → (contains_char (statement sql) b';' ≡ false)
      × ((starts_with (to_ascii_lowercase (statement sql)) (codes "select") ≡ true)
          ⊎ (starts_with (to_ascii_lowercase (statement sql)) (codes "with") ≡ true))
      × (any (λ tok. one_of tok verbs) (split_by is_separator (to_ascii_lowercase (statement sql)))
          ≡ false)
passed sql h = gate (contains_char (statement sql) b';') _ _ _ (unfold is_read_only_query in h)

-- Whatever passes the gate is one statement: it starts with `select` or `with`, and holds no `;`
-- but for those in the tail.
pub is_read_only_query-IsOneStatement :
    (sql : Text) → is_read_only_query sql ≡ true → IsOneStatement sql
is_read_only_query-IsOneStatement sql h = record {
  lead = (statement-Cut sql).lead;
  body = statement sql;
  tail = (statement-Cut sql).tail;
  splits = (statement-Cut sql).splits;
  lead_blank = (statement-Cut sql).lead_blank;
  tail_blank = (statement-Cut sql).tail_blank;
  single = (passed sql h).0;
  reads = (passed sql h).1;
}

separates-tail : (c : ℕ) → is_tail c ≡ true → is_separator c ≡ true
unfolding is_whitespace is_separator
separates-tail c h = ground arith

lower-separator : (c : ℕ) → is_separator (lower c) ≡ is_separator c
unfolding is_separator lower
lower-separator c = ground arith

push_first-map-lower :
    (c : ℕ) (ws : List Text)
    → push_first (lower c) (map to_ascii_lowercase ws) ≡ map to_ascii_lowercase (push_first c ws)
push_first-map-lower c [] = refl
push_first-map-lower c (w ∷ ws) = refl

-- Letter case does not move the separators.
split_by-lower :
    (s : Text)
    → split_by is_separator (to_ascii_lowercase s)
      ≡ map to_ascii_lowercase (split_by is_separator s)
unfolding split_by
split_by-lower [] = refl
split_by-lower (c ∷ s) = elim (Bool-cases (is_separator c)) [
  | inl e ↦ rw (lower-separator c) (rw e (ap (λ x. [] ∷ x) (split_by-lower s)))
  | inr e ↦
      rw (lower-separator c)
        (rw e (rw (split_by-lower s) (push_first-map-lower c (split_by is_separator s))))
]

-- In any letter case.
abbrev pub is_verb : Text → Bool
is_verb word = one_of (to_ascii_lowercase word) verbs

any-is_verb :
    (ws : List Text) → any (λ tok. one_of tok verbs) (map to_ascii_lowercase ws) ≡ any is_verb ws
any-is_verb [] = refl
any-is_verb (w ∷ ws) = ground (arith, any-is_verb ws)

is_verb-nil : is_verb [] ≡ false
unfolding eq_text
is_verb-nil = refl

-- The trimmed statement has a verb where the whole text has one.
any-is_verb-statement :
    (sql : Text)
    → any is_verb (split_by is_separator sql)
      ≡ any (λ tok. one_of tok verbs) (split_by is_separator (to_ascii_lowercase (statement sql)))
any-is_verb-statement sql =
    let cut = statement-Cut sql in
    ap (λ x. any is_verb (split_by is_separator x)) cut.splits
    ∙ any-split_by-append_start is_separator is_verb is_verb-nil cut.lead
        (statement sql ++ cut.tail)
        (all_weaken is_whitespace is_separator cut.lead (λ c h. separates-tail c (ground arith))
          cut.lead_blank)
    ∙ any-split_by-append_end is_separator is_verb is_verb-nil (statement sql) cut.tail
        (all_weaken is_tail is_separator cut.tail separates-tail cut.tail_blank)
    ∙ sym (ap (any (λ tok. one_of tok verbs)) (split_by-lower (statement sql)) ∙ any-is_verb _)

-- A text with one of the words insert, update, delete, replace in it, in any letter case and between
-- characters that are no letter, digit or underscore or the ends of the text, does not pass the gate.
pub is_read_only_query-verb :
    (a word b : Text)
    → any is_separator word ≡ false
    → is_verb word ≡ true
    → ends_in is_separator a ≡ true
    → begins_with is_separator b ≡ true
    → is_read_only_query (a ++ (word ++ b)) ≡ false
is_read_only_query-verb a word b clean verb l r =
    elim (Bool-cases (is_read_only_query (a ++ (word ++ b)))) [
      | inl h ↦
          let found = any-split_by_word is_separator is_verb a word b clean verb l r in
          cc (found, any-is_verb-statement (a ++ (word ++ b)), (passed _ h).2)
      | inr h ↦ h
    ]
