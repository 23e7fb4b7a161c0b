-- ===== src/EcCache/State.antt =====
-- The state of `CacheSAHostModify` (include/ecache/ec_set_associative_host_modify.h), with the hash of
-- include/ecache/ec_hash.h and the kernels of include/ecache/ec_set_associative.cuh. The arrays of a
-- table are functions of the slot, `set * NUM_WAYS + way`, from the table's offset on. Keys and tags are
-- bit patterns. A row of the cache is opaque. Counters are `float`s, whose arithmetic is a parameter.
use nv_embedding_cache.Common.{
  Bool, ◌&&◌, leb, ◌-◌, ℕ, ◌+◌, ◌*◌, ◌/◌, ◌%◌, List, [], ◌∷◌, Option, none, some, ◌==◌,
  if◌then◌else◌,
}
use nv_embedding_cache.InsertHeuristic.Defs.{Floats}

-- `NUM_WAYS`
abbrev pub ways : ℕ
ways = 8

-- `key_space` and `tag_space` are 2 to the widths of `IndexT` and `TagT`; `tag_signed` tells whether `TagT`
-- is signed.
pub record CacheConfig (f : Floats) : Type 0 where
  pub num_sets : ℕ
  pub key_space : ℕ
  pub tag_space : ℕ
  pub tag_signed : Bool
  pub sentinel : ℕ
  pub decay_rate : f.F

-- `embed_cache_hash_set_idx`, `embed_cache_construct_tag`, `embed_cache_construct_key`
unfoldable pub hash_set_idx : ℕ → ℕ → ℕ
hash_set_idx num_sets key = key % num_sets

unfoldable pub construct_tag : ℕ → ℕ → ℕ → ℕ
construct_tag tag_space num_sets key = key / num_sets % tag_space

-- `static_cast<UKeyT>(tag)`: a signed tag that is narrower than a key is extended by its sign.
unfoldable pub widen_tag : Bool → ℕ → ℕ → ℕ → ℕ
widen_tag tag_signed key_space tag_space tag =
    if tag_signed && leb tag_space (tag + tag) then tag + (key_space - tag_space) else tag

unfoldable pub construct_key : Bool → ℕ → ℕ → ℕ → ℕ → ℕ → ℕ
construct_key tag_signed key_space tag_space num_sets tag set_idx =
    (widen_tag tag_signed key_space tag_space tag * num_sets + set_idx) % key_space

-- `ModifyEntry`: a slot of the cache and what to write there. The target address is that of the slot.
pub record Entry (Row : Type 0) : Type 0 where
  pub src : Option Row
  pub dst : ℕ
  pub set_idx : ℕ
  pub way : ℕ
  pub tag : ℕ

-- One table: host tags, device tags, counters and the rows of device memory.
pub record Table (f : Floats) (Row : Type 0) : Type 0 where
  pub h_tags : ℕ → ℕ
  pub d_tags : ℕ → ℕ
  pub counters : ℕ → f.F
  pub rows : ℕ → Row

-- What the loop of `insert` changes; `insert_map` has one entry per slot.
pub record Inserting (f : Floats) (Row : Type 0) : Type 0 where
  pub tags : ℕ → ℕ
  pub counters : ℕ → f.F
  pub insert_map : List (ℕ × Entry Row)

abbrev pub assign : {V : Type 0} → (ℕ → V) → ℕ → V → (ℕ → V)
assign a i v j = if j == i then v else a j

-- The kernels over the list of entries, one thread per entry.
unfoldable pub assign_all :
    {E V : Type 0} → (E → ℕ) → ((ℕ → V) → E → V) → List E → (ℕ → V) → (ℕ → V)
assign_all slot value [] a = a
assign_all slot value (e ∷ es) a = assign_all slot value es (assign a (slot e) (value a e))

abbrev pub entry_slot : {Row : Type 0} → Entry Row → ℕ
entry_slot e = e.set_idx * ways + e.way

unfoldable pub tag_invalidate : {Row : Type 0} → ℕ → List (Entry Row) → (ℕ → ℕ) → (ℕ → ℕ)
tag_invalidate sentinel es tags = assign_all entry_slot (λ a e. sentinel) es tags

unfoldable pub tag_update : {Row : Type 0} → List (Entry Row) → (ℕ → ℕ) → (ℕ → ℕ)
tag_update es tags = assign_all entry_slot (λ a e. e.tag) es tags

-- An entry without a source is never copied from: only `invalidate` makes one.
unfoldable pub mem_update : {Row : Type 0} → List (Entry Row) → (ℕ → Row) → (ℕ → Row)
mem_update es rows =
    assign_all (λ e. e.dst) (λ a e. elim e.src [ none ↦ a e.dst | some r ↦ r ]) es rows

unfoldable pub mem_update_accumulate :
    {Row : Type 0} → (Row → Row → Row) → List (Entry Row) → (ℕ → Row) → (ℕ → Row)
mem_update_accumulate add es rows =
    assign_all (λ e. e.dst) (λ a e. elim e.src [ none ↦ a e.dst | some r ↦ add (a e.dst) r ]) es
      rows

-- `ModifyOpType`; accumulation comes with the addition of rows in the given formats.
pub data ModifyOp (Row : Type 0) : Type 0 where
  modify_replace : ModifyOp Row
  modify_update : ModifyOp Row
  modify_update_accumulate : (Row → Row → Row) → ModifyOp Row
  modify_invalidate : ModifyOp Row

-- `modify`
unfoldable pub write_rows : {Row : Type 0} → ModifyOp Row → List (Entry Row) → (ℕ → Row) → (ℕ → Row)
write_rows modify_replace es rows = mem_update es rows
write_rows modify_update es rows = mem_update es rows
write_rows (modify_update_accumulate add) es rows = mem_update_accumulate add es rows
write_rows modify_invalidate es rows = rows

unfoldable pub write_tags : {Row : Type 0} → ModifyOp Row → List (Entry Row) → (ℕ → ℕ) → (ℕ → ℕ)
write_tags modify_invalidate es tags = tags
write_tags modify_replace es tags = tag_update es tags
write_tags modify_update es tags = tag_update es tags
write_tags (modify_update_accumulate add) es tags = tag_update es tags

unfoldable pub modify :
    {f : Floats} {Row : Type 0}
    → CacheConfig f
    → ModifyOp Row
    → List (Entry Row)
    → Table f Row
    → Table f Row
modify c op [] t = t
modify c op (e ∷ es) t = record t {
  d_tags = write_tags op (e ∷ es) (tag_invalidate c.sentinel (e ∷ es) t.d_tags);
  rows = write_rows op (e ∷ es) t.rows;
}
