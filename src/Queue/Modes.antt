-- ===== src/Queue/Modes.antt =====
-- `QueueMode` of src/fastipc/data/named_queue.py.
use pyfastipc.Base.{
  text_eq, eq_of_text_eq, ℕ, ◌+◌, ◌≤◌, ◌≡◌, ◌⊎◌, inl, inr, refl, sym, false, Bool-cases, ◌&&◌,
  Result, ok, err, value_error, leb, ◌==◌, if◌then◌else◌, Text, codes, map, arith,
}

-- `QueueMode.QUEUE` and `QueueMode.LATEST_CACHE`
abbrev pub queue : ℕ
queue = 0

abbrev pub latest_cache : ℕ
latest_cache = 1

unfoldable pub to_str : ℕ → Text
to_str mode =
    if mode == queue
    then codes "QUEUE"
    else if mode == latest_cache
    then codes "LATEST_CACHE"
    else codes "UNKNOWN"

-- `str.lower` on one character. Of the characters beyond ASCII only the Kelvin sign becomes an ASCII
-- letter, `k`, which no mode has, so the letters of ASCII are enough here.
unfoldable pub lower_char : ℕ → ℕ
lower_char c = if leb 65 c && leb c 90 then c + 32 else c

unfoldable pub lower : Text → Text
unfolding lower_char
lower s = map lower_char s

unfoldable pub from_str : Text → Result ℕ
from_str mode_str =
    if text_eq (lower mode_str) (codes "queue")
    then ok queue
    else if text_eq (lower mode_str) (codes "latest_cache")
    then ok latest_cache
    else err value_error

-- What `from_str` accepts is a mode, whose name, in small letters, is that of the text; and it
-- accepts the name of each mode. A text of another name is refused with `ValueError`.
pub from_str_lem :
    (s : Text)
    → ((mode : ℕ) × (from_str s ≡ ok mode)
        × (mode ≤ 1)
        × (lower (to_str mode) ≡ lower s)
        × (from_str (to_str mode) ≡ ok mode))
      ⊎ ((from_str s ≡ err value_error)
          × (text_eq (lower s) (lower (to_str queue)) ≡ false)
          × (text_eq (lower s) (lower (to_str latest_cache)) ≡ false))
unfolding from_str to_str lower
from_str_lem s = elim (Bool-cases (text_eq (lower s) (codes "queue"))) [
  | inl e ↦ inl (0, rw e, omega arith, sym (eq_of_text_eq (lower s) (codes "queue") e), refl)
  | inr n ↦ elim (Bool-cases (text_eq (lower s) (codes "latest_cache"))) [
    | inl e ↦
        inl
          (1, rw (n, e), omega arith, sym (eq_of_text_eq (lower s) (codes "latest_cache") e), refl)
    | inr o ↦ inr (rw (n, o), n, o)
  ]
]
