-- ===== src/CString/Tests.antt =====
use kb_pm.Prelude.{◌≡◌, refl, pos, negsuc}
use kb_pm.CString.{text, atoi, show_int}

shows : show_int (negsuc 41) ≡ text "-42"
unfolding show_int
shows = refl

-- An id past 2 ^ 32 wraps to a small one.
atoi_wraps : atoi (text "4294967297") ≡ pos 1
unfolding atoi
atoi_wraps = refl

atoi_capped : atoi (text "99999999999999999999") ≡ negsuc 0
unfolding atoi
atoi_capped = refl
