-- ===== src/BufferPool.antt =====
-- pkg/ringbuffer/pool.go: the pool of ring buffers, and its calibration. One goroutine at a time: the
-- atomic operations are plain reads and writes of the state. `none` is a panic.
pub mod Index
pub mod Calibrate
pub mod Cover
pub mod Recycle
mod Examples
use limnet.Base.{ℕ, zero, suc, ◌+◌, ◌%◌, ◌^◌, ◌≡◌, ◌⊎◌, Option, none, some, List, [], ◌∷◌, ◌||◌}
use limnet.Base.{ltb, leb, ◌==◌, ◌>>=◌, if◌then◌else◌, get_elem?, set, replicate}
use limnet.Base.Int.{pos}
use limnet.RingBuffer.Defs.{RingBuffer, new, reset, len, cap}
use Index.{steps, index}
use Calibrate.{Numeric, derive}

abbrev pub calibrate_calls_threshold : ℕ
calibrate_calls_threshold = 42000

-- What the code relies on of a `sync.Pool`: `Get` gives nothing or an item that was put and is still
-- there; the pool may drop items at any time.
pub record SyncPool : Type 1 where
  pub Store : Type 0
  pub Holds : Store → RingBuffer → Type 0
  pub get : Store → Option RingBuffer × Store
  pub put : RingBuffer → Store → Store
  pub get-Holds : (s : Store) (b : RingBuffer) → (get s).0 ≡ some b → Holds s b
  pub Holds-get : (s : Store) (b : RingBuffer) → Holds (get s).1 b → Holds s b
  pub Holds-put : (s : Store) (c b : RingBuffer) → Holds (put c s) b → (b ≡ c) ⊎ Holds s b

-- `Store` is the type of the `sync.Pool` inside.
pub record Pool (Store : Type 0) : Type 0 where
  pub calls : List ℕ
  pub calibrating : ℕ
  pub default_size : ℕ
  pub max_size : ℕ
  pub pool : Store

-- the rest of `Get`, once the pool has answered
unfoldable pub serve :
    {Store : Type 0} → Option RingBuffer → Pool Store → Option (RingBuffer × Pool Store)
serve (some b) p = some (b, p)
serve none p = do b ← new (pos p.default_size); some (b, p)

module _ (lib : SyncPool) where
  unfoldable pub get : Pool lib.Store → Option (RingBuffer × Pool lib.Store)
  get p = let (v, rest) = lib.get p.pool in serve v (record p { pool = rest })

-- The `CompareAndSwap` fails where another calibration runs.
unfoldable pub calibrate : {Store : Type 0} → Numeric → Pool Store → Option (Pool Store)
calibrate num p =
    if p.calibrating == 0
    then (do
      sizes ← derive num p.calls
      some (record p {
        calls = replicate steps 0;
        calibrating = 0;
        default_size = sizes.default_size;
        max_size = sizes.max_size;
      }))
    else some p

-- `atomic.AddUint64(&p.calls[idx], 1)`, and the calibration where the count passes the threshold
unfoldable pub count_call : {Store : Type 0} → Numeric → ℕ → Pool Store → Option (Pool Store)
count_call num idx p = do
  before ← get_elem? p.calls idx 0
  let calls = (before + 1) % 2 ^ 64
  let counted = record p { calls = set p.calls idx calls }
  if ltb calibrate_calls_threshold calls then calibrate num counted else some counted

module _ (lib : SyncPool) (num : Numeric) where
  unfoldable pub put : RingBuffer → Pool lib.Store → Option (Pool lib.Store)
  put b p = do
    idx ← index (len b)
    p ← count_call num idx p
    some (
        if p.max_size == 0 || leb (cap b) p.max_size
        then record p { pool = lib.put (reset b) p.pool }
        else p)
