-- ===== src/Mc/Handle/RoundTrip.antt =====
-- Handles are read back.
use concat.Base.{
  append_assoc, sym, ◌≡◌, ◌≢◌, refl, ◌∙◌, arith, Text, text_eq, text_dec, nat_eq, codes, ◌==◌,
  false, none, some, List, [], ◌∷◌, ◌++◌, ok, contains,
}
use concat.Mc.Message.{PeerInfo}
use concat.Mc.Handle.{Texts, split_last, format_handle, parse_parts, parse_handle}
use Prim.Native.Nat.{ℕ}

-- What is printed is read back. The text of an identity is in base 58, which has no slash, and the
-- text of an address is not empty.
pub record IsReadable (tx : Texts) : Type 0 where
  pub decode_id-pretty : (id : Text) → tx.decode_id (tx.pretty id) ≡ ok id
  pub new_multiaddr-addr_string : (addr : Text) → tx.new_multiaddr (tx.addr_string addr) ≡ ok addr
  pub no_slash : (id : Text) → contains (tx.pretty id) b'/' ≡ false
  pub not_empty : (addr : Text) → tx.addr_string addr ≢ []

split_last-none : (c : ℕ) (s : Text) → contains s c ≡ false → split_last c s ≡ none
unfolding split_last
split_last-none c [] h = refl
split_last-none c (x ∷ s) h = ground (arith, split_last-none c s)

split_last-append :
    (c : ℕ) (front back : Text)
    → contains back c ≡ false
    → split_last c (front ++ (c ∷ back)) ≡ some (front, back)
unfolding split_last
split_last-append c [] back h = ground (arith, split_last-none c back h)
split_last-append c (x ∷ front) back h = rw (split_last, split_last-append c front back h) refl

-- The addresses of a handle: the first one.
abbrev pub first_only : List Text → List Text
first_only [] = []
first_only (addr ∷ addrs) = addr ∷ []

module _ (tx : Texts) (readable : IsReadable tx) where
  -- A text before `/p2p/` and an identity is the address part.
  parse_handle-parse_parts :
      (addr : Text) (id : Text)
      → parse_handle tx (addr ++ (codes "/p2p/" ++ tx.pretty id))
        ≡ parse_parts tx addr (tx.pretty id)
  unfolding parse_handle text_dec
  parse_handle-parse_parts addr id =
      let shape : addr ++ (codes "/p2p/" ++ tx.pretty id)
          ≡ (addr ++ codes "/p2p") ++ (b'/' ∷ tx.pretty id) =
        sym (append_assoc addr (codes "/p2p") (b'/' ∷ tx.pretty id)) in
      let last =
        split_last-append b'/' (addr ++ codes "/p2p") (tx.pretty id) (readable.no_slash id) in
      let before = split_last-append b'/' addr (codes "p2p") (ground arith) in
      rw shape (rw (parse_handle, last) (rw before refl))

  -- A handle that was made from a peer is read as the peer with the first of its addresses, or with
  -- none where it has none. Identities and addresses are read back from their texts, the text of an
  -- identity has no slash, and that of an address is not empty.
  pub parse_handle-format_handle :
      (pi : PeerInfo)
      → parse_handle tx (format_handle tx pi)
        ≡ ok (record { id = pi.id; addrs = first_only pi.addrs })
  unfolding format_handle parse_parts text_dec
  parse_handle-format_handle pi = by_addrs pi.addrs
    where
      by_addrs :
          (addrs : List Text)
          → parse_handle tx (elim addrs [
            | [] ↦ codes "/p2p/" ++ tx.pretty pi.id
            | addr ∷ more ↦ tx.addr_string addr ++ (codes "/p2p/" ++ tx.pretty pi.id)
          ])
            ≡ ok (record { id = pi.id; addrs = first_only addrs })
      by_addrs [] = parse_handle-parse_parts [] pi.id ∙ rw (readable.decode_id-pretty pi.id) refl
      by_addrs (addr ∷ more) =
          let nonempty : (tx.addr_string addr == []) ≡ false =
            ground (arith, readable.not_empty addr) in
          parse_handle-parse_parts (tx.addr_string addr) pi.id
          ∙ rw (readable.decode_id-pretty pi.id, nonempty, readable.new_multiaddr-addr_string addr)
              refl
