-- ===== src/Transport/Handshake/Tests.antt =====
-- Handshakes with clients of other versions.
use alloyfs.Base.{◌≡◌, refl, some}
use alloyfs.Base.Text.{chars}
use alloyfs.Proto.Errors.{err, version_mismatch}
use alloyfs.Proto.Messages.{Frame}
use alloyfs.Transport.Handshake.{agreed, refused, answer_hello, read_ack, client_hello}
use alloyfs.Transport.Handshake.Laws.{answer_hello_lem}

answer_hello_lem_example :
    read_ack (answer_hello 3 (chars "s") (Frame.hello 2 9 (chars "c"))).0
    ≡ (answer_hello 3 (chars "s") (Frame.hello 2 9 (chars "c"))).1
answer_hello_lem_example = (answer_hello_lem 3 2 9 (chars "s") (chars "c")).2

newest_common : (answer_hello 3 (chars "s") (Frame.hello 2 9 (chars "c"))).1 ≡ agreed 4
unfolding answer_hello
newest_common = refl

too_old_refused :
    answer_hello 3 (chars "s") (Frame.hello 1 2 (chars "c"))
    ≡ (some (Frame.response 0 (err version_mismatch)), refused)
unfolding answer_hello
too_old_refused = refl

own_hello : (answer_hello 1 (chars "s") (client_hello (chars "c"))).1 ≡ agreed 4
unfolding answer_hello client_hello
own_hello = refl
