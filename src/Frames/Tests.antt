-- ===== src/Frames/Tests.antt =====
-- A data frame of the protocol's test vectors' form.
use opentunnel.Prelude.{◌≡◌, refl, none, some, [], ◌∷◌}
use opentunnel.Frames.{encode_data_frame, decode_data_frame}

frames :
    (encode_data_frame 258 (104 ∷ 105 ∷ []) ≡ 0 ∷ 0 ∷ 1 ∷ 2 ∷ 104 ∷ 105 ∷ [])
    × (decode_data_frame (0 ∷ 0 ∷ 1 ∷ 2 ∷ 104 ∷ []) ≡ some (258, 104 ∷ []))
    × (decode_data_frame (0 ∷ 0 ∷ 1 ∷ []) ≡ none)
unfolding encode_data_frame decode_data_frame
frames = (refl, refl, refl)
