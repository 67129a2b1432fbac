-- ===== src/MinioConfig/Encode.antt =====
-- The default parameters, encoded.
use test_minio.Base.{String, ◌≡◌, refl, [], ◌∷◌, ok, Dict}
use test_minio.Base.Value.{Value, str}
use test_minio.Base64.{b64decode}
use test_minio.Base64.Codec.{IsAscii}
use test_minio.Base64.TextTrip.{b64decode-b64encode}
use test_minio.MinioConfig.{encode_value, encode_config}

-- Every value of the configuration is an ASCII text.
abbrev pub IsAsciiConfig : Dict Value → Type 0
IsAsciiConfig [] = Unit
IsAsciiConfig ((k, str s) ∷ rest) = IsAscii s × IsAsciiConfig rest
IsAsciiConfig ((k, v) ∷ rest) = ⊥

-- The first dictionary holds, under the same keys in the same order, texts that decode to the second's.
abbrev pub Decodes : Dict String → Dict Value → Type 0
Decodes [] [] = Unit
Decodes ((j, t) ∷ d) ((k, str s) ∷ c) = (j ≡ k) × (b64decode t ≡ ok s) × Decodes d c
Decodes _ _ = ⊥

pub encode_config-Decodes :
    (config : Dict Value)
    → IsAsciiConfig config
    → (d : Dict String) × (encode_config config ≡ ok d) × Decodes d config
unfolding encode_config encode_value
encode_config-Decodes [] h = ([], refl, tt)
encode_config-Decodes ((k, str s) ∷ rest) h =
    let (t, e, back) = b64decode-b64encode s h.0 in
    let (d, f, more) = encode_config-Decodes rest h.1 in
    ((k, t) ∷ d, rw e (rw f), (refl, back, more))
encode_config-Decodes ((k, Value.null) ∷ rest) h = absurd h
encode_config-Decodes ((k, v) ∷ rest) h = absurd h
