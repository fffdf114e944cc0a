-- ===== src/Tests/Enrolling.antt =====
-- Uses of an enrollment token of server/oseye/storage/repositories/enrollment_tokens.py.
use oseye_plateforme.Prelude.{◌≡◌, false, List, [], ◌∷◌, String, arith}
use oseye_plateforme.Enrollment.{Token, consume, revoked, listed, serve_all, verify_and_consume}
use oseye_plateforme.Enrollment.Once.{verify_and_consume_once}

abbrev plain_hash : String → String
plain_hash raw = raw

abbrev tokens : List Token
tokens =
    record {
      token_id = 1;
      token_hash = "alpha";
      created_at = 0;
      expires_at = 100;
      created_by = "admin";
    }
    ∷ record {
      token_id = 2;
      token_hash = "beta";
      created_at = 0;
      expires_at = 50;
      created_by = "admin";
    }
    ∷ []

verify_and_consume_once_example :
    (verify_and_consume plain_hash 12 "alpha" (
      serve_all plain_hash
        (consume 11 "beta" ∷ revoked 2 ∷ listed 11 ∷ [])
        (verify_and_consume plain_hash 10 "alpha" tokens).0)).1
    ≡ false
verify_and_consume_once_example =
    verify_and_consume_once plain_hash "alpha" 10 12
      (consume 11 "beta" ∷ revoked 2 ∷ listed 11 ∷ []) tokens (omega arith)
