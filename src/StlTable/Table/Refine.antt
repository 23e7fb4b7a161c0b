-- ===== src/StlTable/Table/Refine.antt =====
-- Any sequence of calls of `STLContainerTable` (include/stl_map_backed_table_detail.hpp), compared with
-- a map that never evicts.
use nv_embedding_cache.Common.{
  arith, subst, none-some, ℕ, ◌*◌, ◌≤◌, ◌≡◌, refl, ap, ◌∙◌, sym, Bool, true, false, List, [], ◌∷◌,
  Option, none, some, if◌then◌else◌, length, All, inl, inr, ◌⊎◌, get_or,
}
use nv_embedding_cache.StlTable.Part.Defs.{Config, Partition, Algorithms, slots_per_buffer}
use nv_embedding_cache.StlTable.Part.Invariant.{IsValid}
use nv_embedding_cache.StlTable.Table.Defs.{
  TableConfig, Outcome, ok, insert, update, update_accumulate, rows_from,
}
use nv_embedding_cache.StlTable.Table.Find.{Finding, find}
use nv_embedding_cache.StlTable.Table.Batch.{written, Agrees, written-Agrees, view_at}
use nv_embedding_cache.StlTable.Table.Insert.{insert-Agrees}
use nv_embedding_cache.StlTable.Table.Modify.{
  listed, updated, updated-none, erase-view_at, update-view_at,
}
use nv_embedding_cache.StlTable.Table.Change.{
  accumulated, accumulated-none, update_accumulate-view_at, clear-view_at, construct-empty,
}
use nv_embedding_cache.StlTable.Table.Reads.{find-reads}
use nv_embedding_cache.StlTable.Table.Calls.{
  Query, Call, insert_rows, update_rows, accumulate_rows, erase_keys, clear_all, find_rows, Fits,
  replay_one, replay, found, call_one, call_all, run,
}

updated-Agrees :
    (j : ℕ) (rows : List (ℕ × List ℕ)) (w v : Option (List ℕ))
    → Agrees w v
    → Agrees (updated j rows w) (updated j rows v)
updated-Agrees j rows w v (inl same) = inl (ap (updated j rows) same)
updated-Agrees j rows w v (inr gone) = inr (ap (updated j rows) gone ∙ updated-none j rows)

accumulated-Agrees :
    (kernel : List ℕ → List ℕ → List ℕ) (j : ℕ) (rows : List (ℕ × List ℕ)) (w v : Option (List ℕ))
    → Agrees w v
    → Agrees (accumulated kernel j rows w) (accumulated kernel j rows v)
accumulated-Agrees kernel j rows w v (inl same) = inl (ap (accumulated kernel j rows) same)
accumulated-Agrees kernel j rows w v (inr gone) =
    inr (ap (accumulated kernel j rows) gone ∙ accumulated-none kernel j rows)

erased-Agrees :
    (here : Bool) (w v : Option (List ℕ))
    → Agrees w v
    → Agrees (if here then none else w) (if here then none else v)
erased-Agrees true w v a = inl refl
erased-Agrees false w v a = a

Agrees-trans : (u w v : Option (List ℕ)) → Agrees u w → Agrees w v → Agrees u v
Agrees-trans u w v (inl e) (inl d) = inl (e ∙ d)
Agrees-trans u w v (inl e) (inr d) = inr (e ∙ d)
Agrees-trans u w v (inr e) h = inr e

module _ (part_of : ℕ → ℕ) (c : Config) (j : ℕ) where
  -- What holds of the table and the map after the same calls.
  pub record Refines (v : Option (List ℕ)) (out : Outcome (List Partition)) : Type 0 where
    pub parts : List Partition
    pub returned : out ≡ ok parts
    pub valid : All (IsValid c) parts
    pub agrees : Agrees (view_at part_of j parts) v

module _ (part_of : ℕ → ℕ) (alg : Algorithms) (c : Config) (big : 1 ≤ slots_per_buffer c)
    (j : ℕ) where
  full_insert :
      (keys : List ℕ) (stride size : ℕ) (values : List ℕ) (now : ℕ → ℕ) (parts : List Partition)
      → size ≡ c.max_value_size
      → size ≤ stride
      → length keys * stride ≤ length values
      → All (IsValid c) parts
      → (parts' : List Partition) × (insert part_of alg c now keys stride size values parts
          ≡ ok parts')
        × All (IsValid c) parts'
        × Agrees
            (view_at part_of j parts')
            (written j (rows_from stride size values 0 keys) (view_at part_of j parts))
  full_insert keys stride size values now parts full wide long w =
      subst
        (λ n.
          (parts' : List Partition) × (insert part_of alg c now keys stride n values parts
            ≡ ok parts')
          × All (IsValid c) parts'
          × Agrees (view_at part_of j parts')
              (written j (rows_from stride n values 0 keys) (view_at part_of j parts)))
        (sym full)
        (insert-Agrees part_of alg c now big keys stride values parts (omega (arith, full, wide))
          long w j)

  call_one-Refines :
      (call : Call) (parts : List Partition) (v : Option (List ℕ))
      → Fits c call
      → All (IsValid c) parts
      → Agrees (view_at part_of j parts) v
      → Refines part_of c j (replay_one c j call v) (call_one part_of alg c call parts)
  unfolding call_one replay_one
  call_one-Refines (insert_rows keys stride size values now) parts v (full, wide, long) w a =
      let rows = rows_from stride size values 0 keys in
      let before = view_at part_of j parts in
      let (parts', ran, w', b) = full_insert keys stride size values now parts full wide long w in
      record {
        parts = parts';
        returned = ran;
        valid = w';
        agrees =
            Agrees-trans (view_at part_of j parts') (written j rows before) (written j rows v) b
              (written-Agrees j rows v before a);
      }
  call_one-Refines (update_rows [] stride size values) parts v f w a =
      unfold update in
      unfold rows_from in
      unfold updated in record { parts = parts; returned = refl; valid = w; agrees = a }
  call_one-Refines (update_rows (k ∷ ks) stride size values) parts v f w a =
      let (parts', ran, w', e) = update-view_at part_of c parts w j k ks stride size values f in
      record {
        parts = parts';
        returned = ran;
        valid = w';
        agrees = rw e (
            updated-Agrees j (rows_from stride size values 0 (k ∷ ks)) (view_at part_of j parts) v
              a);
      }
  call_one-Refines (accumulate_rows kernel [] stride size values) parts v f w a =
      unfold update_accumulate in
      unfold rows_from in
      unfold accumulated in record { parts = parts; returned = refl; valid = w; agrees = a }
  call_one-Refines (accumulate_rows kernel (k ∷ ks) stride size values) parts v f w a =
      let (parts', ran, w', e) =
        update_accumulate-view_at part_of c kernel f.0 parts j k ks stride size values w f.1 in
      record {
        parts = parts';
        returned = ran;
        valid = w';
        agrees = rw e (
            accumulated-Agrees kernel j (rows_from stride size values 0 (k ∷ ks))
              (view_at part_of j parts) v a);
      }
  call_one-Refines (erase_keys keys) parts v f w a =
      let (parts', ran, w', e) = erase-view_at part_of c parts w j keys in
      record {
        parts = parts';
        returned = ran;
        valid = w';
        agrees = rw e (erased-Agrees (listed j keys) (view_at part_of j parts) v a);
      }
  call_one-Refines clear_all parts v f w a =
      let (parts', ran, w', e) = clear-view_at part_of c parts j w in
      record { parts = parts'; returned = ran; valid = w'; agrees = inl e }
  call_one-Refines (find_rows q) parts v f w a =
      let (parts', s', ran, w', same, _) =
        find-reads part_of c q.now q.with_values q.with_sizes q.keys q.num_bits q.task_size
          q.value_stride parts q.output f w in
      record { parts = parts'; returned = ap found ran; valid = w'; agrees = rw (same j) a }

  call_all-Refines :
      (calls : List Call) (parts : List Partition) (v : Option (List ℕ))
      → All (Fits c) calls
      → All (IsValid c) parts
      → Agrees (view_at part_of j parts) v
      → Refines part_of c j (replay c j calls v) (call_all part_of alg c calls parts)
  unfolding call_all replay
  call_all-Refines [] parts v f w a = record {
    parts = parts;
    returned = refl;
    valid = w;
    agrees = a;
  }
  call_all-Refines (call ∷ calls) parts v f w a =
      let one = call_one-Refines call parts v f.0 w a in
      let rest =
        call_all-Refines calls one.parts (replay_one c j call v) f.1 one.valid one.agrees in
      record {
        parts = rest.parts;
        returned = rw (one.returned, call_all) rest.returned;
        valid = rest.valid;
        agrees = rest.agrees;
      }

-- Any sequence of calls on a new table for keys of the configured size, whose inserts have rows of the
-- full size, with buffers that hold the rows, sizes that the table admits, a kernel that keeps the length
-- of a row and memory buffers of one slot at least, returns; the partitions are well formed, and every
-- key has either no value or the value that a map which never evicts has after the same calls.
pub construct-Refines :
    (part_of : ℕ → ℕ) (alg : Algorithms) (key_bytes : ℕ) (t : TableConfig) (calls : List Call)
    (j : ℕ)
    → t.key_size ≡ key_bytes
    → 1 ≤ slots_per_buffer t.slots
    → All (Fits t.slots) calls
    → Refines part_of t.slots j (replay t.slots j calls none) (run part_of alg key_bytes t calls)
unfolding run
construct-Refines part_of alg key_bytes t calls j same big f =
    let (parts, made, valid, new) = construct-empty part_of key_bytes t j same in
    rw (made, run) (call_all-Refines part_of alg t.slots big j calls parts none f valid (inl new))

-- A lookup after any sequence of calls on a new table, under the conditions of `construct-Refines` and
-- with a stride that rows fit, returns, and at each index of the batch the output has the row that was
-- there before the lookup, or else the value of the key in the map that never evicts: after inserts of
-- full rows, no row is stale.
pub find-fresh :
    (part_of : ℕ → ℕ) (alg : Algorithms) (key_bytes : ℕ) (t : TableConfig) (calls : List Call)
    (q : Query) (x : ℕ)
    → t.key_size ≡ key_bytes
    → 1 ≤ slots_per_buffer t.slots
    → All (Fits t.slots) calls
    → t.slots.max_value_size ≤ q.value_stride
    → (parts : List Partition) × (parts' : List Partition) × (s' : Finding) × (run part_of alg
          key_bytes t calls
        ≡ ok parts)
      × (find part_of t.slots q.now q.with_values q.with_sizes q.keys q.num_bits q.task_size
            q.value_stride parts q.output
          ≡ some (parts', s'))
      × ((s'.values x ≡ q.output.values x)
          ⊎ (replay t.slots (get_or q.keys x 0) calls none ≡ some (s'.values x)))
find-fresh part_of alg key_bytes t calls q x same big f wide =
    let key = get_or q.keys x 0 in
    let r = construct-Refines part_of alg key_bytes t calls key same big f in
    let (parts', s', ran, _, _, rows) =
      find-reads part_of t.slots q.now q.with_values q.with_sizes q.keys q.num_bits q.task_size
        q.value_stride r.parts q.output wide r.valid in
    (
      r.parts,
      parts',
      s',
      r.returned,
      ran,
      elim (rows x) [
        | inl old ↦ inl old
        | inr hit ↦ elim r.agrees [
          | inl agreed ↦ inr (sym agreed ∙ hit)
          | inr gone ↦ absurd (none-some (sym gone ∙ hit))
        ]
      ],
    )
