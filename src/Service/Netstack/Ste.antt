-- ===== src/Service/Netstack/Ste.antt =====
-- internal/service/netstack_bridge.go: what the decoding of a payload gives.
use freetetra.Prelude.{
  ℕ, ◌%◌, ◌≡◌, Bool, false, ◌&&◌, List, [], ◌++◌, ◌⊎◌, Outcome, ok, err, ◌==◌, length, ◌∷◌, All,
}
use freetetra.Service.Netstack.Codec.{
  channel_bits_to_ste, channel_packed35_to_ste, all_bytes_are_bits, channel_soft690_to_ste, pieces,
  DecodeError, unsupported_length,
}

abbrev pub IsSte : List ℕ → Type 0
IsSte frame = length frame ≡ 36

-- The pieces one behind the other.
abbrev pub joined : List (List ℕ) → List ℕ
joined [] = []
joined (p ∷ ps) = p ++ joined ps

abbrev pub each : (List ℕ → List ℕ) → List (List ℕ) → List (List ℕ)
each convert [] = []
each convert (p ∷ ps) = convert p ∷ each convert ps

-- The pieces as they are cut, before they are converted.
abbrev cut : ℕ → ℕ → List ℕ → List (List ℕ)
cut size n raw = pieces (λ p. p) size n raw

-- The encodings of a frame, their sizes, and how each becomes a frame.
pub data Encoding : Type 0 where
  plain packed bits soft : Encoding

abbrev pub size : Encoding → ℕ
size plain = 36
size packed = 35
size bits = 274
size soft = 690

abbrev pub convert : Encoding → List ℕ → List ℕ
convert plain p = p
convert packed p = channel_packed35_to_ste p
convert bits p = channel_bits_to_ste p
convert soft p = channel_soft690_to_ste p

-- The payload can be whole pieces of the encoding.
abbrev pub fits : Encoding → List ℕ → Bool
fits plain raw = length raw % 36 == 0
fits packed raw = length raw % 35 == 0
fits bits raw = length raw % 274 == 0 && all_bytes_are_bits raw
fits soft raw = length raw % 690 == 0

abbrev pub before : Encoding → List Encoding
before plain = []
before packed = plain ∷ []
before bits = plain ∷ packed ∷ []
before soft = plain ∷ packed ∷ bits ∷ []

-- The answer, by pieces `ps` that together are the whole payload, or the error.
abbrev pub Decodes : List ℕ → Outcome DecodeError (List (List ℕ)) → Type 0
Decodes raw result =
    ((k : Encoding) × (ps : List (List ℕ)) × (result ≡ ok (each (convert k) ps))
      × (joined ps ≡ raw)
      × All (λ p. length p ≡ size k) ps
      × All IsSte (each (convert k) ps)
      × All (λ e. fits e raw ≡ false) (before k))
    ⊎ ((result ≡ err (unsupported_length (length raw)))
        × All (λ e. fits e raw ≡ false) (plain ∷ packed ∷ bits ∷ soft ∷ []))
