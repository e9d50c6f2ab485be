-- ===== src/Dedupe/Clock.antt =====
-- time.Time and Time.Sub, as far as the operator uses them.
use reliability_lab.Common.{ℕ, ◌+◌, ◌≡◌, arith, ltb, leb, if◌then◌else◌}
use reliability_lab.Common.Int.{ℤ, pos_part, pos, negsuc, sub_ℕ, leb_ℤ, ltb_ℤ, ◌≤ℤ◌}

abbrev pub Time : Type 0
Time = ℕ

abbrev pub max_duration : ℤ
max_duration = pos 9223372036854775807

abbrev pub min_duration : ℤ
min_duration = negsuc 9223372036854775807

-- now.Sub(t): the difference, or the nearest duration where it does not fit into an int64.
unfoldable pub sub_time : Time → Time → ℤ
sub_time now t =
    let d = sub_ℕ now t in
    if ltb_ℤ max_duration d then max_duration else if ltb_ℤ d min_duration then min_duration else d

-- Durations that a cooldown may take: positive, and an int64.
abbrev pub IsCooldown : ℤ → Type 0
IsCooldown c = (pos 1 ≤ℤ c) × (c ≤ℤ max_duration)

-- Saturation does not show in a comparison with a cooldown.
pub sub_time-lt :
    (now t : Time) (c : ℤ) → IsCooldown c → ltb_ℤ (sub_time now t) c ≡ ltb now (t + pos_part c)
unfolding sub_time
sub_time-lt now t (pos n) h = ground arith
sub_time-lt now t (negsuc n) h = absurd (omega arith)

pub sub_time-ge :
    (now t : Time) (c : ℤ) → IsCooldown c → leb_ℤ c (sub_time now t) ≡ leb (t + pos_part c) now
unfolding sub_time
sub_time-ge now t (pos n) h = ground arith
sub_time-ge now t (negsuc n) h = absurd (omega arith)
