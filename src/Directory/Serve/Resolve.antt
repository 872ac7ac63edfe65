-- ===== src/Directory/Serve/Resolve.antt =====
-- What a lookup of a peer resolves to.
use concat.Base.{
  ℕ, ◌+◌, ◌≡◌, refl, ap, ◌∙◌, arith, ◌&&◌, not, Bool, true, false, Option, none, some, List, [],
  ◌∷◌, Result, ok, err, unknown_peer, lookup_error, if◌then◌else◌, ltb, eqb, length,
}
use concat.Mc.Message.{PeerInfo}
use concat.Directory.Serve.{Arrival, found, failed, expired, lookup_loop}

-- The first peer that arrives before the context ends.
unfoldable pub first_found : List Arrival → Option PeerInfo
first_found [] = none
first_found (found pinfo ∷ rest) = some pinfo
first_found (failed e ∷ rest) = first_found rest
first_found (expired ∷ rest) = none

-- Every worker fails, and not because it does not know the peer.
unfoldable pub all_failed : List Arrival → Bool
all_failed [] = true
all_failed (found pinfo ∷ rest) = false
all_failed (failed unknown_peer ∷ rest) = false
all_failed (failed e ∷ rest) = all_failed rest
all_failed (expired ∷ rest) = false

abbrev pub resolved : Option PeerInfo → Bool → Result PeerInfo
resolved (some pinfo) b = ok pinfo
resolved none true = err lookup_error
resolved none false = err unknown_peer

-- `known` workers did not know the peer, and `errcount` failed otherwise.
lookup_loop-known :
    (arrivals : List Arrival) (workers errcount known : ℕ)
    → workers ≡ errcount + known + length arrivals
    → lookup_loop workers arrivals errcount
      ≡ resolved (first_found arrivals) (eqb known 0 && all_failed arrivals)
unfolding lookup_loop first_found all_failed
lookup_loop-known [] workers errcount known e =
    last (eqb known 0) (ltb errcount workers) (ground (arith, e))
  where
    last :
        (b c : Bool)
        → c ≡ not b
        → (if c then err unknown_peer else err lookup_error) ≡ resolved none (b && true)
    last true c is = rw is refl
    last false c is = rw is refl
lookup_loop-known (found pinfo ∷ rest) workers errcount known e = refl
lookup_loop-known (failed unknown_peer ∷ rest) workers errcount known e =
    lookup_loop-known rest workers errcount (known + 1) (omega (arith, e))
    ∙ ap (resolved (first_found rest))
        (none_left (eqb (known + 1) 0) (eqb known 0) (all_failed rest) (ground arith))
  where
    none_left : (a b c : Bool) → a ≡ false → (a && c) ≡ (b && false)
    none_left a b c is = ground (arith, is)
lookup_loop-known (failed x ∷ rest) workers errcount known e =
    lookup_loop-known rest workers (errcount + 1) known (omega (arith, e))
lookup_loop-known (expired ∷ rest) workers errcount known e =
    late (eqb known 0) (ltb errcount workers) (ground (arith, e))
  where
    late :
        (b c : Bool)
        → c ≡ true
        → (if c then err unknown_peer else err lookup_error) ≡ resolved none (b && false)
    late true c is = rw is refl
    late false c is = rw is refl

-- A lookup with one result for each worker, that is for each directory and for the DHT, gives the first
-- peer that arrives before the context ends; with none it gives the error of a failed lookup where
-- every worker failed otherwise than by not knowing the peer, and else the one for an unknown peer.
pub lookup_loop-resolved :
    (arrivals : List Arrival)
    → lookup_loop (length arrivals) arrivals 0
      ≡ resolved (first_found arrivals) (all_failed arrivals)
lookup_loop-resolved arrivals = lookup_loop-known arrivals (length arrivals) 0 0 (omega arith)
