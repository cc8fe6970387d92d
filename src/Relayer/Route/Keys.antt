-- ===== src/Relayer/Route/Keys.antt =====
-- The keys that packages/relayer/src/routes reads from a body.
use b402_solana.Common.{Text, Bytes, Option, some, ok, ◌≡◌, arith}
use b402_solana.Relayer.Route.{to_key}

pub to_key_inv :
    (public_key : Text → Option Bytes) (name : Text) (key : Bytes)
    → to_key public_key name ≡ ok key
    → public_key name ≡ some key
unfolding to_key
to_key_inv public_key name key e = ground arith
