-- ===== src/Memory/Cache/Lines.antt =====
-- `CacheLine`, `CacheSet`, `Cache` and the lookups `find_line` and `find_line_quiet`. The counters
-- of hits, misses, evictions and write-backs wrap at 64 bits. A pointer to
-- a line is its set and way. `mru_way` is `none` for -1; a block's bytes are read below 64 only.
use sustemu.Base.{
  ℕ, zero, suc, ◌+◌, ◌-◌, ◌/◌, ◌%◌, ◌^◌, Bool, true, false, Option, none, some, ltb, ◌==◌,
  if◌then◌else◌, ◌&&◌, update,
}
use sustemu.Word.{add64}

abbrev pub block_size : ℕ
block_size = 64

pub record CacheLine : Type 0 where
  pub valid : Bool
  pub dirty : Bool
  pub tag : ℕ
  pub last_access : ℕ
  pub bytes : ℕ → ℕ

pub record CacheSet : Type 0 where
  pub lines : ℕ → CacheLine
  pub mru_way : Option ℕ

pub record Cache : Type 0 where
  pub s : ℕ
  pub w : ℕ
  pub off : ℕ
  pub sets : ℕ → CacheSet
  pub timer : ℕ
  pub hits : ℕ
  pub misses : ℕ
  pub evictions : ℕ
  pub writebacks : ℕ

abbrev empty_line : CacheLine
empty_line = record { valid = false; dirty = false; tag = 0; last_access = 0; bytes = λ o. 0 }

unfoldable pub init_cache : ℕ → ℕ → Cache
init_cache s w = record {
  s = s;
  w = w;
  off = 6;
  sets = λ k. record { lines = λ i. empty_line; mru_way = none };
  timer = 0;
  hits = 0;
  misses = 0;
  evictions = 0;
  writebacks = 0;
}

-- `(addr >> c->off) & ((1ULL << c->s) - 1)`
abbrev pub set_idx : Cache → ℕ → ℕ
set_idx c addr = addr / 2 ^ c.off % 2 ^ c.s

-- `addr >> (c->s + c->off)`
abbrev pub tag_of : Cache → ℕ → ℕ
tag_of c addr = addr / 2 ^ (c.s + c.off)

abbrev pub line_hits : CacheLine → ℕ → Bool
line_hits l tag = l.valid && l.tag == tag

-- The `for` loop over the ways from i on: the first hit, or the least recently used way of those
-- that it has seen.
unfoldable pub scan_ways : ℕ → ℕ → (ℕ → CacheLine) → ℕ → ℕ → ℕ → Bool × ℕ
scan_ways zero i lines tag min_time lru = (false, lru)
scan_ways (suc n) i lines tag min_time lru =
    let older = ltb (lines i).last_access min_time in
    let rest =
      scan_ways n (i + 1) lines tag (if older then (lines i).last_access else min_time)
        (if older then i else lru) in
    if line_hits (lines i) tag then (true, i) else rest

-- The first way from i on that satisfies a test
unfoldable pub first_way : ℕ → ℕ → (ℕ → Bool) → Option ℕ
first_way zero i p = none
first_way (suc n) i p = let rest = first_way n (i + 1) p in if p i then some i else rest

-- The way that `find_line` settles on: whether it hits, and which it is
unfoldable pub locate : Cache → ℕ → Bool × ℕ
unfolding scan_ways
locate c addr = elim set.mru_way [
  | none ↦ scan_ways c.w 0 set.lines tag (2 ^ 64 - 1) 0
  | some m ↦
      if line_hits (set.lines m) tag
      then (true, m)
      else scan_ways c.w 0 set.lines tag (2 ^ 64 - 1) 0
]
  where
    set : CacheSet
    set = c.sets (set_idx c addr)

    tag : ℕ
    tag = tag_of c addr

abbrev pub put_line : Cache → ℕ → ℕ → CacheLine → Cache
put_line c k i l = record c { sets = update c.sets k (record set { lines = update lines i l }) }
  where
    set : CacheSet
    set = c.sets k

    lines : ℕ → CacheLine
    lines = set.lines

abbrev pub line_at : Cache → ℕ → ℕ → CacheLine
line_at c k i = (c.sets k).lines i

abbrev pub set_mru : Cache → ℕ → ℕ → Cache
set_mru c k i = record c { sets = update c.sets k (record set { mru_way = some i }) }
  where
    set : CacheSet
    set = c.sets k

-- `find_line`: the clock ticks, a hit is counted and stamped, a miss returns the victim.
unfoldable pub find_line : Cache → ℕ → Bool × ℕ × Cache
unfolding locate
find_line c addr =
    let (hit, way) = locate c addr in
    let now = add64 c.timer 1 in
    let k = set_idx c addr in
    let stamped = put_line c k way (record (line_at c k way) { last_access = now }) in
    if hit
    then (true, way, record (set_mru stamped k way) { timer = now; hits = add64 c.hits 1 })
    else (false, way, record c { timer = now; misses = add64 c.misses 1 })

-- `find_line_quiet`: no statistics, but a hit found by the loop becomes the set's `mru_way`.
unfoldable pub find_line_quiet : Cache → ℕ → Bool × ℕ × Cache
unfolding locate
find_line_quiet c addr =
    let (hit, way) = locate c addr in
    if hit then (true, way, set_mru c (set_idx c addr) way) else (false, way, c)
