-- ===== src/Fs/Buffer.antt =====
-- src/kernel/fs/buf.c: the buffer cache. The two rings of nodes are lists, from `head.next` on, of
-- the positions in `buf_cache`; a node outside of both has NULL links. `lk_buf_cache` is held while the
-- rings change, so that the change is one step. `virtio_disk_rw` moves a whole block at once.
pub mod Rings
pub mod Coherence
pub mod Locked
pub mod Get
pub mod Change
pub mod Victim
pub mod Init
pub mod Pages
mod Tests
use biglab.Prelude.{
  ℕ, zero, suc, ◌+◌, ◌-◌, ◌^◌, Bool, true, false, ◌&&◌, Option, none, some, List, [], ◌∷◌, ◌++◌,
  ◌==◌, ltb, if◌then◌else◌, update, u32, sub32, erase,
}
use biglab.Prelude.Run.{Run, ok, panic, blocked, Cmd, pure, ◌>>=◌, ◌>>◌}
use biglab.Fs.Disk.{Block, Disk}

-- BLOCK_NUM_UNUSED.
abbrev pub block_num_unused : ℕ
block_num_unused = 2 ^ 32 - 1

-- N_BUFFER.
abbrev pub n_buffer : ℕ
n_buffer = 16384

-- `buffer_t`. `page` is the content of the page at `data`, if there is one; `slk` is the pid that holds
-- the sleeplock, if one does.
pub record Buffer : Type 0 where
  pub block_num : ℕ
  pub ref : ℕ
  pub page : Option Block
  pub slk : Option ℕ

-- `pages` counts the free pages of the user pool; `pid` is the running process.
pub record Buffers : Type 0 where
  pub bufs : ℕ → Buffer
  pub active : List ℕ
  pub inactive : List ℕ
  pub disk : Disk
  pub pages : ℕ
  pub pid : ℕ

abbrev pub set_buf : ℕ → Buffer → Buffers → Buffers
set_buf i buf s = record s { bufs = update s.bufs i buf }

abbrev pub put_in : ℕ → Bool → List ℕ → List ℕ
put_in i insert_next xs = if insert_next then i ∷ xs else xs ++ (i ∷ [])

-- `insert_node`: the node leaves its ring, and goes to the front or to the end of one of the two.
abbrev pub insert_node : ℕ → Bool → Bool → Buffers → Buffers
insert_node i insert_active insert_next s =
    let active = erase i s.active in
    let inactive = erase i s.inactive in
    if insert_active
    then record s { active = put_in i insert_next active; inactive = inactive }
    else record s { active = active; inactive = put_in i insert_next inactive }

-- The loop of `buffer_init` over the nodes from `i` on; `k` nodes are left.
init_nodes : ℕ → ℕ → Buffers → Buffers
init_nodes zero i s = s
init_nodes (suc k) i s = init_nodes k (i + 1) (
    insert_node i false true
      (set_buf i (record { block_num = block_num_unused; ref = 0; page = none; slk = none }) s))

pub buffer_init : Buffers → Buffers
unfolding init_nodes
buffer_init s = init_nodes n_buffer 0 (record s { active = []; inactive = [] })

-- The first node of a ring whose buffer has the block.
abbrev pub find : (ℕ → Buffer) → ℕ → List ℕ → Option ℕ
find bufs block_num [] = none
find bufs block_num (i ∷ xs) =
    if (bufs i).block_num == block_num then some i else find bufs block_num xs

-- `sleeplock_acquire(&node->buf.slk)` and `return &node->buf`.
abbrev pub lock_buf : ℕ → Cmd Buffers ℕ
lock_buf i s = elim (s.bufs i).slk [
  | some _ ↦ blocked
  | none ↦ ok i (set_buf i (record (s.bufs i) { slk = some s.pid }) s)
]

-- `buffer_read`, for a buffer with a page.
abbrev pub buffer_read : ℕ → Cmd Buffers (Unit {0})
buffer_read i s =
    ok tt (set_buf i (record (s.bufs i) { page = some (s.disk (s.bufs i).block_num) }) s)

-- `buffer_write`. The callers have the buffer from `buffer_get`, with a page: the device would read
-- another buffer's content from the address 0.
pub buffer_write : ℕ → Cmd Buffers (Unit {0})
buffer_write i s = elim (s.bufs i).page [
  | none ↦ panic
  | some b ↦ ok tt (record s { disk = update s.disk (s.bufs i).block_num b })
]

-- Up to the release of the spinlock: the node `i` is taken for the
-- block, with its page or a new one, which is zeroed.
abbrev pub take_victim : ℕ → ℕ → Cmd Buffers (Unit {0})
take_victim block_num i s =
    let buf = record (s.bufs i) { block_num = block_num; ref = 1 } in
    elim buf.page [
      | some _ ↦ ok tt (insert_node i true true (set_buf i buf s))
      | none ↦
          if s.pages == 0
          then panic
          else ok tt (
              insert_node i true true (
                set_buf i (record buf { page = some (λ a. 0) }) (record s { pages = s.pages - 1 })))
    ]

-- The third part of `buffer_get`, with the inactive ring.
abbrev pub get_victim : ℕ → List ℕ → Cmd Buffers ℕ
get_victim block_num [] s = panic
get_victim block_num (i ∷ _) s =
    (take_victim block_num i >> lock_buf i >> buffer_read i >> pure i) s

pub buffer_get : ℕ → Cmd Buffers ℕ
buffer_get block_num s = elim (find s.bufs block_num s.active) [
  | some i ↦ lock_buf i (set_buf i (record (s.bufs i) { ref = u32 ((s.bufs i).ref + 1) }) s)
  | none ↦ elim (find s.bufs block_num s.inactive) [
    | some i ↦ lock_buf i (insert_node i true true (set_buf i (record (s.bufs i) { ref = 1 }) s))
    | none ↦ get_victim block_num s.inactive s
  ]
]

pub buffer_put : ℕ → Cmd Buffers (Unit {0})
buffer_put i s =
    let buf = record (s.bufs i) { ref = sub32 (s.bufs i).ref 1; slk = none } in
    if buf.ref == 0
    then ok tt (insert_node i false true (set_buf i buf s))
    else ok tt (set_buf i buf s)

-- The loop of `buffer_freemem` over the rest of the inactive ring.
pub free_loop : ℕ → List ℕ → ℕ → Cmd Buffers ℕ
free_loop count [] freed s = ok freed s
free_loop count (i ∷ xs) freed s =
    let freed_one = free_loop count xs (u32 (freed + 1)) (
      set_buf i (record (s.bufs i) { page = none; block_num = block_num_unused })
        (record s { pages = s.pages + 1 })) in
    let kept = free_loop count xs freed s in
    if ltb freed count
    then elim (s.bufs i).page [ none ↦ kept | some _ ↦ freed_one ]
    else ok freed s

abbrev pub buffer_freemem : ℕ → Cmd Buffers ℕ
buffer_freemem count s = free_loop count s.inactive 0 s

-- What the callers do between `buffer_get` and `buffer_write`.
abbrev pub modify : (Block → Block) → ℕ → Cmd Buffers (Unit {0})
modify f i s =
    let b : Option Block = elim (s.bufs i).page [ none ↦ none | some b ↦ some (f b) ] in
    ok tt (set_buf i (record (s.bufs i) { page = b }) s)

-- A change of a block as the rest of the file system makes it.
pub change_block : (Block → Block) → ℕ → Cmd Buffers (Unit {0})
change_block f block_num =
    buffer_get block_num >>= λ i. modify f i >> buffer_write i >> buffer_put i
