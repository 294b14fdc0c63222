-- ===== src/Preview/Examples.antt =====
-- A preview of internal/services/operationpreview, with an encoding of the example's own.
use oneinstack_panel.Common.{◌≤◌, ◌≡◌, refl, arith, true, none, some, List, [], ◌∷◌}
use oneinstack_panel.Text.{Text, codes, trim_space}
use oneinstack_panel.Preview.{
  OperationPreview, Document, Codec, done, normalize_payload, create, consume, row_of,
}
use oneinstack_panel.Preview.Once.{Write, insert_write, claim_write, successes, successes-le_one}
use oneinstack_panel.Preview.RoundTrip.{create-consume}

abbrev restart : Document Unit
restart = record {
  preview_id = codes "p1";
  operation = codes "service.restart";
  expires_at = 300000000100;
  body = tt;
}

-- It encodes one document only.
abbrev toy : Codec Unit
toy = record {
  normalize_json = λ s. some s;
  digest_hex = λ s. s;
  cipher_ready = true;
  encrypt = λ s. some (0 ∷ s);
  decrypt = λ s. elim s [ [] ↦ none | b ∷ rest ↦ some rest ];
  encode_document = λ d. some (codes "{}");
  decode_document = λ s. some restart;
}

abbrev row : OperationPreview
row =
    row_of toy (codes "p1") 100 4 (codes "service.restart") [] (codes "{}") (0 ∷ codes "{}")
      (codes "{}")

-- Two calls of `Consume` that have both read the preview as open.
abbrev race : List Write
race = insert_write row ∷ claim_write 200 (codes "p1") ∷ claim_write 201 (codes "p1") ∷ []

race_outcome : successes toy (codes "p1") race [] ≡ 1
unfolding successes
race_outcome = refl

successes-le_one_example : successes toy (codes "p1") race [] ≤ 1
successes-le_one_example = successes-le_one toy (codes "p1") race []

abbrev asked : Document Unit
asked = record { preview_id = []; operation = []; expires_at = 0; body = tt }

create-consume_example :
    (normalized : Text) × (digest : Text) × (rows : List OperationPreview) × (normalize_payload toy
        []
      ≡ some (normalized, digest))
    × (consume toy 200 (codes "p1") 4 (row ∷ [])
        ≡ done (trim_space (codes " service.restart"), normalized, restart, trim_space []) rows)
unfolding create trim_space
create-consume_example =
    create-consume toy (codes "p1") 100 (codes " service.restart") 4 [] asked [] [] unseal refl
      restart (λ y e. refl) (row ∷ []) refl 200 (omega arith)
  where
    unseal : (x y : Text) → toy.encrypt x ≡ some y → toy.decrypt y ≡ some x
    unseal x y e = ground arith
