-- ===== src/Lww/Winners.antt =====
-- The slot of one key under a sequence of candidates.
use nodalmerge.Base.{◌≡◌, ◌≢◌, false, Option, none, some, arith}
use nodalmerge.Base.Prio.{gtp, gtp_irrefl}
use nodalmerge.Lww.{MapWinner, winner_prio, better}

-- two candidates of different priority may come in either order
pub better-better :
    (slot : Option MapWinner) (a b : MapWinner)
    → winner_prio a ≢ winner_prio b
    → better (some (better slot a)) b ≡ better (some (better slot b)) a
unfolding better gtp
better-better none a b h = ground arith
better-better (some c) a b h = ground arith

-- the priority of a winner only grows
gtp-better :
    (slot : Option MapWinner) (a : MapWinner)
    → gtp (winner_prio a) (winner_prio (better slot a)) ≡ false
unfolding better
gtp-better none a = gtp_irrefl (winner_prio a)
gtp-better (some c) a = ground (arith, gtp_irrefl (winner_prio a))

-- of two candidates of one priority the first stays
pub better_again :
    (slot : Option MapWinner) (a b : MapWinner)
    → winner_prio a ≡ winner_prio b
    → better (some (better slot a)) b ≡ better slot a
unfolding better gtp
better_again none a b h = ground arith
better_again (some c) a b h = ground arith
