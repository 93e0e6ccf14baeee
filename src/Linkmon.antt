-- ===== src/Linkmon.antt =====
-- internal/linkmon/linkmon.go: the health of each uplink from its probes, and the choice of one. The
-- floating-point numbers are a parameter, as are the probes' results; the clock's reading is an
-- argument, and the ticker of Run is left out: probe_all may come at any time.
pub mod Window
pub mod Choice
mod Tests
use sase.Prelude.{
  ℕ, ◌+◌, ◌*◌, ◌%◌, ◌≤◌, Bool, true, false, not, ◌&&◌, List, [], ◌∷◌, Option, none, some, length,
  take, set, replicate, ltb, ◌==◌, if◌then◌else◌,
}
use sase.Prelude.Int.{ℤ, pos, lt_int}
use sase.Prelude.Bytes.{Bytes}
use sase.Prelude.Dict.{Dict, get, put, bytes_key}
use sase.Prelude.Sort.{stable_sort}

-- float64, with what the code computes: fails / filled, comparisons, and the moving average.
pub record Floats (F : Type 0) : Type 0 where
  pub one : F
  pub half : F
  pub default_alpha : F
  pub is_positive : F → Bool
  pub le : F → F → Bool
  pub ratio : ℕ → ℕ → F
  pub blend : F → ℕ → ℕ → ℕ

pub record Link : Type 0 where
  pub name : Bytes
  pub addr : Bytes
  pub priority : ℤ

pub record Health : Type 0 where
  pub window : List Bool
  pub idx : ℕ
  pub filled : ℕ
  pub rtt_ewma : ℕ
  pub last_ok : ℕ

-- Durations in nanoseconds; the window's size is not negative after withDefaults.
pub record Config (F : Type 0) : Type 0 where
  pub interval : ℕ
  pub window : ℕ
  pub loss_threshold : F
  pub timeout : ℕ
  pub alpha : F

pub record Monitor (F : Type 0) : Type 0 where
  pub cfg : Config F
  pub links : List Link
  pub healths : Dict Bytes Health

pub record LinkStatus (F : Type 0) : Type 0 where
  pub link : Link
  pub up : Bool
  pub rtt : ℕ
  pub loss_rate : F
  pub last_ok : ℕ

-- A missing or non-positive number is taken as 0.
unfoldable pub or_default : ℕ → ℕ → ℕ
or_default n d = if n == 0 then d else n

unfoldable pub by_priority : Link → Link → Bool
by_priority a b = lt_int a.priority b.priority

unfoldable pub new_health : ℕ → Health
new_health size = record {
  window = replicate size false;
  idx = 0;
  filled = 0;
  rtt_ewma = 0;
  last_ok = 0;
}

-- The loop of New over the sorted links.
unfoldable pub add_healths : ℕ → List Link → Dict Bytes Health → Dict Bytes Health
add_healths size [] healths = healths
add_healths size (l ∷ links) healths = add_healths size links (put l.name (new_health size) healths)

-- What one probe leaves in the window.
unfoldable pub mark_window : Bool → Health → Health
mark_window ok h = record h {
  window = set h.window h.idx ok;
  idx = (h.idx + 1) % length h.window;
  filled = if ltb h.filled (length h.window) then h.filled + 1 else h.filled;
}

unfoldable pub count_fails : List Bool → ℕ
count_fails [] = 0
count_fails (ok ∷ window) = if ok then count_fails window else count_fails window + 1

module _ {F : Type 0} (floats : Floats F) where
  unfoldable pub with_defaults : Config F → Config F
  with_defaults c =
      let interval = or_default c.interval 200000000 in
      record {
        interval = interval;
        window = or_default c.window 5;
        loss_threshold =
            if floats.is_positive c.loss_threshold then c.loss_threshold else floats.half;
        timeout = or_default c.timeout interval;
        alpha = if floats.is_positive c.alpha then c.alpha else floats.default_alpha;
      }

  unfoldable pub new_monitor : List Link → Config F → Monitor F
  new_monitor links cfg =
      let c = with_defaults cfg in
      let sorted = stable_sort by_priority links in
      record { cfg = c; links = sorted; healths = add_healths c.window sorted [] }

  unfoldable pub average : F → ℕ → ℕ → ℕ
  average alpha rtt old = if old == 0 then rtt else floats.blend alpha rtt old

  unfoldable pub record_health : F → ℕ → Bool → ℕ → Health → Health
  record_health alpha now ok rtt h =
      let marked = mark_window ok h in
      if ok
      then record marked { last_ok = now; rtt_ewma = average alpha rtt h.rtt_ewma }
      else marked

  unfoldable pub record_found : Bytes → ℕ → Bool → ℕ → Option Health → Monitor F → Monitor F
  record_found name now ok rtt none m = m
  record_found name now ok rtt (some h) m = record m {
    healths = put name (record_health m.cfg.alpha now ok rtt h) m.healths;
  }

  unfoldable pub record_probe : Bytes → ℕ → Bool → ℕ → Monitor F → Monitor F
  record_probe name now ok rtt m = record_found name now ok rtt (get name m.healths) m

  -- One round of probes in the order in which they come back; a probe gives its result and the time.
  unfoldable pub probe_all : (Link → Bool × ℕ × ℕ) → List Link → Monitor F → Monitor F
  probe_all probe [] m = m
  probe_all probe (l ∷ links) m =
      let (ok, rtt, now) = probe l in probe_all probe links (record_probe l.name now ok rtt m)

  unfoldable pub loss_rate : Health → F
  loss_rate h =
      if h.filled == 0
      then floats.one
      else floats.ratio (count_fails (take h.filled h.window)) h.filled

  unfoldable pub is_up : F → Option Health → Bool
  is_up threshold none = false
  is_up threshold (some h) = ltb 0 h.filled && floats.le (loss_rate h) threshold

  unfoldable pub best_of : List Link → Monitor F → Option Link
  best_of [] m = none
  best_of (l ∷ links) m =
      let rest = best_of links m in
      if is_up m.cfg.loss_threshold (get l.name m.healths) then some l else rest

  unfoldable pub best : Monitor F → Option Link
  best m = best_of m.links m

  unfoldable pub link_is_up : Bytes → Monitor F → Bool
  link_is_up name m = is_up m.cfg.loss_threshold (get name m.healths)

  unfoldable pub status_of : F → Link → Health → LinkStatus F
  status_of threshold l h = record {
    link = l;
    up = is_up threshold (some h);
    rtt = h.rtt_ewma;
    loss_rate = loss_rate h;
    last_ok = h.last_ok;
  }

  -- `none` is the panic on a link without a health, which New gives to every link.
  unfoldable pub add_status :
      Option Health → F → Link → Option (List (LinkStatus F)) → Option (List (LinkStatus F))
  add_status none threshold l rest = none
  add_status (some h) threshold l none = none
  add_status (some h) threshold l (some out) = some (status_of threshold l h ∷ out)

  unfoldable pub snapshot_of : List Link → Monitor F → Option (List (LinkStatus F))
  snapshot_of [] m = some []
  snapshot_of (l ∷ links) m =
      add_status (get l.name m.healths) m.cfg.loss_threshold l (snapshot_of links m)

  unfoldable pub snapshot : Monitor F → Option (List (LinkStatus F))
  snapshot m = snapshot_of m.links m
