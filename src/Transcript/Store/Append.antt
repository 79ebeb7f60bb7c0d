-- ===== src/Transcript/Store/Append.antt =====
-- A line that is appended is shown.
use ghal_bol.Common.{
  ◌≤◌, ◌≡◌, refl, some_injective, sym, subst, ap, ◌∙◌, inl, inr, Bool, true, not, ◌&&◌, Option,
  none, some, List, [], ◌∷◌, any, map, Text, text_eq, text_eq_iff, eq_of_text, is_empty, Bool-cases,
  arith,
}
use ghal_bol.Common.Map.{beq_self}
use ghal_bol.Common.Json
use ghal_bol.Common.Json.{
  Json, Items, nil, cons, Fields, end, field, array, object, as_array, as_object, from_items,
  get-insert_self, get-first, get-set_at_self,
}
use ghal_bol.Transcript.Line.{StoredChatLine, from_json, to_json, and_then}
use ghal_bol.Transcript.Line.Reread.{from_json_again}
use ghal_bol.Transcript.Order.{mid_of, insert_line_in_thread_order}
use ghal_bol.Transcript.Order.Sorted.{count, count-append, count-insert}
use ghal_bol.Transcript.Merge.{rows, or_skip, is_included, take_thread, included_rows}
use ghal_bol.Transcript.Merge.Exact.{has_mid}
use ghal_bol.Transcript.Patch.{with_threads}
use ghal_bol.Transcript.Keys.{Contacts}
use ghal_bol.Transcript.Store.{
  Store, thread_at, rows_of, thread_json, append_in, append_lines, insert_root,
}

-- The lines of a thread that can be read back.
abbrev AllRead : List StoredChatLine → Type 0
AllRead [] = Unit
AllRead (l ∷ ls) = (from_json (to_json l) ≡ some l) × AllRead ls

or_skip-AllRead :
    (item : Json) (o : Option StoredChatLine) (ls : List StoredChatLine)
    → from_json item ≡ o
    → AllRead ls
    → AllRead (or_skip o ls)
or_skip-AllRead item none ls e h = h
or_skip-AllRead item (some l) ls e h = (from_json_again item l e, h)

rows-AllRead : (thread : Items) → AllRead (rows thread)
unfolding rows
rows-AllRead nil = tt
rows-AllRead (cons item thread) =
    or_skip-AllRead item (from_json item) (rows thread) refl (rows-AllRead thread)

insert-AllRead :
    (ls : List StoredChatLine) (l : StoredChatLine)
    → from_json (to_json l) ≡ some l
    → AllRead ls
    → AllRead (insert_line_in_thread_order ls l)
unfolding insert_line_in_thread_order
insert-AllRead [] l r h = (r, tt)
insert-AllRead (e ∷ es) l r h = ground (arith, r, h.0, h.1, insert-AllRead es l r h.1)

-- What is written of lines that can be read back is read as those lines.
rows-written : (ls : List StoredChatLine) → AllRead ls → rows (from_items (map to_json ls)) ≡ ls
unfolding rows
rows-written [] h = refl
rows-written (l ∷ ls) h =
    ap (λ o. or_skip o (rows (from_items (map to_json ls)))) h.0
    ∙ ap (λ r. l ∷ r) (rows-written ls h.1)

take-count :
    (p : StoredChatLine → Bool) (keys : List Text) (from k : Text) (o : Option Items)
    (rest : List StoredChatLine)
    → count p rest ≤ count p (take_thread keys from k o rest)
take-count p keys from k none rest = omega arith
take-count p keys from k (some thread) rest =
    elim (Bool-cases (is_included keys from k (rows thread))) [
      | inl taken ↦ rw taken (omega (arith, count-append p (rows thread) rest))
      | inr left ↦ rw left (omega arith)
    ]

taken-count :
    (p : StoredChatLine → Bool) (keys : List Text) (from k : Text) (o : Option Items)
    (thread : Items) (rest : List StoredChatLine)
    → any (text_eq k) keys ≡ true
    → o ≡ some thread
    → count p (rows thread) ≤ count p (take_thread keys from k o rest)
unfolding is_included
taken-count p keys from k none thread rest h e = absurd (cc)
taken-count p keys from k (some t) thread rest h e =
    subst (λ q. count p (rows q) ≤ count p (take_thread keys from k (some t) rest))
      (some_injective e) (rw h (omega (arith, count-append p (rows t) rest)))

-- A thread that is taken has its lines among those that are loaded.
pub included-count :
    (p : StoredChatLine → Bool) (keys : List Text) (from k : Text) (threads : Fields)
    (thread : Items)
    → any (text_eq k) keys ≡ true
    → Json.get k threads ≡ some (array thread)
    → count p (rows thread) ≤ count p (included_rows keys from threads)
unfolding included_rows Json.get
included-count p keys from k end thread h e = absurd (cc)
included-count p keys from k (field j v threads) thread h e = elim (Bool-cases (text_eq j k)) [
  | inl same ↦
      let j_is_k = (text_eq_iff j k).0 same in
      let found : some v ≡ some (array thread) = sym (rw same refl) ∙ e in
      subst
        (λ i.
          count p (rows thread)
          ≤ count p (take_thread keys from i (as_array v) (included_rows keys from threads)))
        (sym j_is_k)
        (taken-count p keys from k (as_array v) thread (included_rows keys from threads) h
          (ap as_array (some_injective found)))
  | inr other ↦
      let less = included-count p keys from k threads thread h (sym (rw other refl) ∙ e) in
      omega (arith, less, take-count p keys from j (as_array v) (included_rows keys from threads))
]

-- A message stands in the thread of a key.
pub record Stored (app_namespace k m : Text) (s : Store) : Type 0 where
  pub root : Fields
  pub threads : Fields
  pub thread : Items
  pub is_root : s.all ≡ object root
  pub in_root : Json.get app_namespace root ≡ some (object threads)
  pub in_threads : Json.get k threads ≡ some (array thread)
  pub held : 1 ≤ count (has_mid m) (rows thread)

any-count :
    (m : Text) (ls : List StoredChatLine)
    → any (λ e. text_eq (mid_of e) m) ls ≡ true
    → 1 ≤ count (has_mid m) ls
any-count m [] h = absurd (cc)
any-count m (l ∷ ls) h = ground (arith, any-count m ls)

inserted-count :
    (ls : List StoredChatLine) (l : StoredChatLine)
    → 1 ≤ count (has_mid (mid_of l)) (insert_line_in_thread_order ls l)
inserted-count ls l =
    let same = beq_self {K = Text} (mid_of l) in
    ground (arith, count-insert (has_mid (mid_of l)) ls l, same)

pub as_object_of :
    (o : Option Json) (m : Fields) → and_then o as_object ≡ some m → o ≡ some (object m)
as_object_of none m e = absurd (cc)
as_object_of (some (object n)) m e = cc
as_object_of (some Json.null) m e = absurd (cc)
as_object_of (some (Json.boolean b)) m e = absurd (cc)
as_object_of (some (Json.number z)) m e = absurd (cc)
as_object_of (some (Json.real t)) m e = absurd (cc)
as_object_of (some (Json.string t)) m e = absurd (cc)
as_object_of (some (array xs)) m e = absurd (cc)

pub as_array_of :
    (o : Option Json) (xs : Items) → and_then o as_array ≡ some xs → o ≡ some (array xs)
as_array_of none m e = absurd (cc)
as_array_of (some (array n)) m e = cc
as_array_of (some Json.null) m e = absurd (cc)
as_array_of (some (Json.boolean b)) m e = absurd (cc)
as_array_of (some (Json.number z)) m e = absurd (cc)
as_array_of (some (Json.real t)) m e = absurd (cc)
as_array_of (some (Json.string t)) m e = absurd (cc)
as_array_of (some (object xs)) m e = absurd (cc)

module _ (contacts : Contacts) (ns k : Text) (line : StoredChatLine)
    (readable : from_json (to_json line) ≡ some line) (root : Fields) (s : Store)
    (is_object : s.all ≡ object root) where
  new_space : Stored ns k (mid_of line) (append_in contacts ns k line none s)
  unfolding Json.get rows
  new_space = record {
    root = Json.insert ns (object (field k (thread_json (line ∷ [])) end)) root;
    threads = field k (thread_json (line ∷ [])) end;
    thread = cons (to_json line) nil;
    is_root = ap (insert_root ns (object (field k (thread_json (line ∷ [])) end))) is_object;
    in_root = get-insert_self ns (object (field k (thread_json (line ∷ [])) end)) root;
    in_threads = get-first k (thread_json (line ∷ [])) end;
    held =
        let same = beq_self {K = Text} (mid_of line) in
        subst (λ ls. 1 ≤ count (has_mid (mid_of line)) ls) (sym (ap (λ o. or_skip o []) readable))
          (rw same (omega arith));
  }

  thread_at-AllRead : (o : Option Items) → AllRead (rows_of o)
  thread_at-AllRead none = tt
  thread_at-AllRead (some thread) = rows-AllRead thread

  held_before :
      (threads : Fields) (o : Option Items)
      → Json.get ns root ≡ some (object threads)
      → and_then (Json.get k threads) as_array ≡ o
      → any (λ e. text_eq (mid_of e) (mid_of line)) (rows_of o) ≡ true
      → Stored ns k (mid_of line) s
  held_before threads none e g h = absurd (cc)
  held_before threads (some thread) e g h = record {
    root = root;
    threads = threads;
    thread = thread;
    is_root = is_object;
    in_root = e;
    in_threads = as_array_of (Json.get k threads) thread g;
    held = any-count (mid_of line) (rows thread) h;
  }

  held_after :
      (threads : Fields) (ls : List StoredChatLine)
      → Json.get ns root ≡ some (object threads)
      → AllRead ls
      → Stored ns k
          (mid_of line)
          (append_lines contacts ns k threads (some (insert_line_in_thread_order ls line)) s)
  held_after threads ls e h =
      let lines = insert_line_in_thread_order ls line in
      record {
        root = Json.set_at ns (object (Json.insert k (thread_json lines) threads)) root;
        threads = Json.insert k (thread_json lines) threads;
        thread = from_items (map to_json lines);
        is_root = ap (with_threads ns (Json.insert k (thread_json lines) threads)) is_object;
        in_root =
            get-set_at_self ns (object (Json.insert k (thread_json lines) threads)) (object threads)
              root e;
        in_threads = get-insert_self k (thread_json lines) threads;
        held =
            subst (λ r. 1 ≤ count (has_mid (mid_of line)) r)
              (sym (rows-written lines (insert-AllRead ls line readable h)))
              (inserted-count ls line);
      }

  in_space :
      (threads : Fields)
      → Json.get ns root ≡ some (object threads)
      → Stored ns k (mid_of line) (append_in contacts ns k line (some threads) s)
  in_space threads e =
      let existing = thread_at k threads in
      elim (Bool-cases
        (not (is_empty (mid_of line)) && any (λ q. text_eq (mid_of q) (mid_of line)) existing)) [
          | inl twice ↦ rw twice (
              held_before threads (and_then (Json.get k threads) as_array) e refl
                (ground (arith, twice)))
          | inr new_line ↦ rw new_line (
              held_after threads existing e
                (thread_at-AllRead (and_then (Json.get k threads) as_array)))
        ]

  pub append-Stored :
      (o : Option Fields)
      → and_then (Json.get ns root) as_object ≡ o
      → Stored ns k (mid_of line) (append_in contacts ns k line o s)
  append-Stored none e = new_space
  append-Stored (some threads) e = in_space threads (as_object_of (Json.get ns root) threads e)
