-- ===== src/Client/Symlinks/Tests.antt =====
-- Targets of the tests of crates/alloyfs-client/src/symlink.rs, with a `to_uppercase` for ASCII.
use alloyfs.Base.{◌≡◌, refl, map}
use alloyfs.Base.Text.{Text, chars, strip_prefix}
use alloyfs.Base.Text.Split.{split_on}
use alloyfs.Client.Symlinks.{ascii_upper, shared_count, localize_symlink_target}
use alloyfs.Common.Exclude.{trim_end_slashes}

abbrev upper : Text → Text
upper = map ascii_upper

inside_same_directory :
    localize_symlink_target upper (chars "Y:") (chars "Y:/linktest/real.txt") (chars "linktest")
    ≡ chars "real.txt"
unfolding localize_symlink_target shared_count strip_prefix split_on trim_end_slashes
inside_same_directory = refl

up_and_down :
    localize_symlink_target upper (chars "/mnt/alloy/") (chars "/mnt/alloy/a/b/t.txt") (chars "a/c")
    ≡ chars "../b/t.txt"
unfolding localize_symlink_target shared_count strip_prefix split_on trim_end_slashes
up_and_down = refl

near_miss :
    localize_symlink_target upper (chars "/mnt/alloy") (chars "/mnt/alloys/x") (chars "")
    ≡ chars "/mnt/alloys/x"
unfolding localize_symlink_target shared_count strip_prefix split_on trim_end_slashes
near_miss = refl

own_directory :
    localize_symlink_target upper (chars "Y:") (chars "Y:/sub") (chars "sub") ≡ chars "."
unfolding localize_symlink_target shared_count strip_prefix split_on trim_end_slashes
own_directory = refl

-- Another directory, whose name differs in the case of its letters.
other_case :
    localize_symlink_target upper (chars "/mnt/alloy") (chars "/mnt/ALLOY/x") (chars "") ≡ chars "x"
unfolding localize_symlink_target shared_count strip_prefix split_on trim_end_slashes
other_case = refl
