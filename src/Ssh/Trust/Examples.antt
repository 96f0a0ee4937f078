-- ===== src/Ssh/Trust/Examples.antt =====
-- Enrolling a concrete host twice.
use mksrv.Common.{
  ◌≡◌, refl, inl, true, false, [], arith, Text, txt, text_eq, has_prefix, contains_text,
  trim_left_func, trim_right_func, trim_space, split, is_space,
}
use mksrv.Ssh.Trust.{is_comment, scan, enrolled, trust}
use mksrv.Ssh.Trust.Enrolled.{IsEntry, trust_idem}

abbrev pattern : Text
pattern = txt "h1"

abbrev line : Text
line = txt "h1 k"

line-IsEntry : IsEntry pattern line
unfolding txt is_comment has_prefix text_eq contains_text trim_space trim_left_func trim_right_func
    is_space
line-IsEntry = record {
  one_line = (omega arith, (omega arith, (omega arith, (omega arith, tt))));
  trimmed = refl;
  no_comment = refl;
  for_host = refl;
}

added : trust pattern line [] ≡ enrolled true (txt "h1 k\n")
unfolding txt trust scan split is_comment has_prefix text_eq contains_text trim_space trim_left_func
    trim_right_func is_space
added = refl

trust_idem_example : trust pattern line (txt "h1 k\n") ≡ enrolled false (txt "h1 k\n")
trust_idem_example = trust_idem pattern line [] (txt "h1 k\n") line-IsEntry (inl refl) added
