-- ===== src/Transcript/Store/Every.antt =====
-- What holds of every row of the threads holds of what is loaded, and a patch of rows is a patch of all threads.
use ghal_bol.Common.{
  ◌≡◌, refl, sym, subst, inl, inr, Bool, true, Option, none, some, List, [], ◌∷◌, map, All-append,
  if◌then◌else◌, Text, Bool-cases, eq_of_text,
}
use ghal_bol.Common.Json.{Json, Items, Fields, end, field, array, as_array}
use ghal_bol.Transcript.Line.{StoredChatLine}
use ghal_bol.Transcript.Merge.{
  rows, is_included, take_thread, included_rows, stored_rows, load_from, load_merged_unlocked,
}
use ghal_bol.Transcript.Patch.{patch_items, patch_all_threads, threads_of}
use ghal_bol.Transcript.Patch.Rows.{or_same, Keeps, rows-patch_items}
use ghal_bol.Transcript.Keys.{Contacts, expand_conversation_keys}
use ghal_bol.Transcript.Store.{Store, rows_of, load_merged}
use ghal_bol.Transcript.Merge.Every.{Every, merged-Every}

module _ (p : StoredChatLine → Bool) where
  -- Every row of every thread.
  abbrev pub Threads : Fields → Type 0
  Threads end = Unit
  Threads (field k v threads) = Every p (rows_of (as_array v)) × Threads threads

  take-Every :
      (keys : List Text) (from k : Text) (o : Option Items) (rest : List StoredChatLine)
      → Every p (rows_of o)
      → Every p rest
      → Every p (take_thread keys from k o rest)
  take-Every keys from k none rest h r = r
  take-Every keys from k (some thread) rest h r =
      elim (Bool-cases (is_included keys from k (rows thread))) [
        | inl taken ↦ rw taken (All-append (λ q. p q ≡ true) (rows thread) rest h r)
        | inr left ↦ rw left r
      ]

  included-Every :
      (keys : List Text) (from : Text) (threads : Fields)
      → Threads threads
      → Every p (included_rows keys from threads)
  unfolding included_rows
  included-Every keys from end h = tt
  included-Every keys from (field k v threads) h =
      take-Every keys from k (as_array v) (included_rows keys from threads) h.0
        (included-Every keys from threads h.1)

  -- Every row of the threads of a namespace, if it is there.
  abbrev pub InSpace : Option Fields → Type 0
  InSpace none = Unit
  InSpace (some threads) = Threads threads

  from-Every :
      (expanded : List Text) (m : Option Text) (o : Option Fields)
      → InSpace o
      → Every p (load_from expanded m o)
  from-Every expanded m none h = tt
  from-Every expanded m (some threads) h =
      merged-Every p (stored_rows expanded m threads) (included-Every _ _ threads h)

  pub load-Every :
      (contacts : Contacts) (ns : Text) (keys : List Text) (m : Option Text) (s : Store)
      → InSpace (threads_of ns s.all)
      → Every p (load_merged contacts ns keys m s)
  unfolding load_merged load_merged_unlocked
  load-Every contacts ns keys m s h =
      from-Every (expand_conversation_keys contacts keys) m (threads_of ns s.all) h

module _ (p q : StoredChatLine → Bool) (f : StoredChatLine → Option StoredChatLine)
    (keeps : Keeps f) (h : (l : StoredChatLine) → p l ≡ true → q (or_same l (f l)) ≡ true) where
  map-Every : (ls : List StoredChatLine) → Every p ls → Every q (map (λ l. or_same l (f l)) ls)
  map-Every [] k = tt
  map-Every (l ∷ ls) k = (h l k.0, map-Every ls k.1)

  items-Every : (thread : Items) → Every p (rows thread) → Every q (rows (patch_items f thread).0)
  items-Every thread k =
      subst (Every q) (sym (rows-patch_items f thread keeps)) (map-Every (rows thread) k)

  thread-Every :
      (k : Text) (v : Json) (o : Option Items) (rest : Fields) (touched : List Text)
      → as_array v ≡ o
      → Every p (rows_of o)
      → Threads q rest
      → Threads q
          (elim o as (λ _. Fields × List Text) [
            | none ↦ (field k v rest, touched)
            | some thread ↦ (
              field k (array (patch_items f thread).0) rest,
              if (patch_items f thread).1 then k ∷ touched else touched,
            )
          ]).0
  thread-Every k v none rest touched e a r = (subst (λ o. Every q (rows_of o)) (sym e) tt, r)
  thread-Every k v (some thread) rest touched e a r = (items-Every thread a, r)

  -- A patch of all threads.
  pub patch_all-Threads :
      (threads : Fields) → Threads p threads → Threads q (patch_all_threads f threads).0
  unfolding patch_all_threads
  patch_all-Threads end k = tt
  patch_all-Threads (field c v threads) k =
      thread-Every c v (as_array v) (patch_all_threads f threads).0 (patch_all_threads f threads).1
        refl k.0 (patch_all-Threads threads k.1)
