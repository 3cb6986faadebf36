-- ===== src/Releases/UploadTests.antt =====
-- The theorems of uploads and signatures at concrete data.
use saas_admin.Prelude.{String, ◌≡◌, refl, true, none, some, [], ◌∷◌, ◌==◌, if◌then◌else◌}
use saas_admin.Prelude.Table.{select, update}
use saas_admin.Database.{healthy}
use saas_admin.Releases.{ReleaseArtifact, ReleaseTables, draft}
use saas_admin.Releases.Artifacts.{artifact_release, update_artifact_file}
use saas_admin.Releases.Publish.{content_changed}
use saas_admin.Releases.Finalize.{
  ObjectCode, head_of, body_of, compute_artifact_sha256, find_artifact, FinalizeArtifactInput, pin,
  finalize_artifact, SigningKey, SignCode, sign_body, sign_artifact_with,
}
use saas_admin.Releases.Pinned.{
  Pins, finalize_artifact-Pins, SignedContent, sign_artifact_with-SignedContent,
}

abbrev tables : ReleaseTables
tables = record {
  releases =
      record {
        id = "r";
        product_id = "prod";
        version = "1.0.0";
        channel = "stable";
        name = "";
        release_notes = "";
        status = draft;
        yanked_reason = "";
        published_at = none;
        yanked_at = none;
      }
      ∷ [];
  artifacts =
      record {
        id = "a";
        release_id = "r";
        platform = "linux-x64";
        file_key = "key";
        file_size = 0;
        sha256 = "";
        ed25519_sig = "";
        content_type = "";
        signing_key_id = none;
      }
      ∷ [];
}

-- A storage whose object has the content "hello", and a hash that marks a content.
abbrev objects : ObjectCode
objects = record {
  head = λ key. head_of 5 "";
  body = λ key. body_of "hello";
  bytes = λ text. if text == "hello" then 5 else 0;
  hash = λ content. if content == "hello" then "2cf2" else "other";
  is_sha256 = λ text. true;
}

abbrev input : FinalizeArtifactInput
input = record { artifact_id = "a"; expected_sha256 = "2cf2" }

abbrev uploaded : String → ReleaseArtifact
uploaded hash = record {
  id = "a";
  release_id = "r";
  platform = "linux-x64";
  file_key = "key";
  file_size = 5;
  sha256 = hash;
  ed25519_sig = "";
  content_type = "";
  signing_key_id = none;
}

finalize_artifact-Pins_example : Pins objects input (uploaded "2cf2")
unfolding finalize_artifact find_artifact compute_artifact_sha256 pin update_artifact_file
    artifact_release select update
finalize_artifact-Pins_example =
    finalize_artifact-Pins healthy objects input tables (uploaded "2cf2") refl

abbrev code : SignCode
code = record {
  objects = objects;
  max_sign_size = 100;
  slot = true;
  decrypt = λ key product_id. if product_id == "prod" then some "seed" else none;
  is_seed = λ seed. true;
  sign = λ seed content. "signature";
}

abbrev key : SigningKey
key = record { id = "k"; product_id = "prod"; private_key_encrypted = "sealed" }

sign_artifact_with-SignedContent_example :
    SignedContent code "prod" key (uploaded "2cf2") "signature" "k"
unfolding sign_artifact_with sign_body
sign_artifact_with-SignedContent_example =
    sign_artifact_with-SignedContent code "prod" key (uploaded "2cf2") "signature" "k" refl

replaced_upload : sign_artifact_with code "prod" key (uploaded "before") ≡ content_changed
unfolding sign_artifact_with sign_body
replaced_upload = refl
