-- ===== src/Version/Tests.antt =====
-- Examples of the order of versions.
use pifire_c.Common.{ℕ, ◌+◌, ◌-◌, ◌*◌, ◌≡◌, refl, ◌&&◌, some, [], ◌∷◌, leb, if◌then◌else◌}
use pifire_c.Common.Int.{ℤ, pos, negsuc}
use pifire_c.Mode.{bytes}
use pifire_c.Text.{Bytes}
use pifire_c.Version.{version_compare}
use pifire_c.Version.Swapped.{Swaps, version_compare-swap}

-- the digits at the start of a text
abbrev read_digits : ℕ → Bytes → ℤ × Bytes
read_digits n [] = (pos n, [])
read_digits n (c ∷ s) =
    let rest = read_digits (n * 10 + (c - b'0')) s in
    if leb b'0' c && leb c b'9' then rest else (pos n, c ∷ s)

abbrev candidate : Bytes
candidate = bytes "v1.10.0-rc.2"

abbrev release : Bytes
release = bytes "1.10"

prerelease_first : version_compare (read_digits 0) candidate release ≡ some (negsuc 0)
unfolding version_compare
prerelease_first = refl

ten_after_nine : version_compare (read_digits 0) release (bytes "1.9.7") ≡ some (pos 1)
unfolding version_compare
ten_after_nine = refl

candidates_in_order :
    version_compare (read_digits 0) (bytes "1.2-rc.10") (bytes "1.2-rc.9") ≡ some (pos 1)
unfolding version_compare
candidates_in_order = refl

version_compare-swap_example :
    Swaps
      (version_compare (read_digits 0) candidate release)
      (version_compare (read_digits 0) release candidate)
version_compare-swap_example = version_compare-swap (read_digits 0) candidate release
