-- ===== src/Pstest/Listing.antt =====
-- What the list RPCs answer (gcpapi/pubsub/pstest/fake.go).
use gcp_emulator_pool.Common.{List, Str, length, [], ◌∷◌, take, str_discrete, ite}

-- The names that begin with the prefix, in their order.
unfoldable pub with_prefix : Str → List Str → List Str
with_prefix p [] = []
with_prefix p (n ∷ ns) =
    let rest = with_prefix p ns in ite (str_discrete (take (length p) n) p) (n ∷ rest) rest
