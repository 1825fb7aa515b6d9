-- ===== src/Turn/Token.antt =====
-- internal/domain/turn/token.go
use buk_yutnori.Prelude.{◌≡◌}
use buk_yutnori.Prelude.Result.{Result, ok, err, ◌>>◌}
use buk_yutnori.Domain.{
  Error, invalid_result_token, PlayerId, ResultTokenId, YutResult, ResultOrigin, validate_id,
  validate_yut_result, validate_origin,
}

pub record ResultToken : Type 0 where
  pub id : ResultTokenId
  pub result : YutResult
  pub origin : ResultOrigin
  pub generated_by_player_id : PlayerId

-- `fmt.Errorf("%w: ...: %w", ErrInvalidResultToken, err)`
abbrev wrap : Result Error (Unit {0}) → Result Error (Unit {0})
wrap (ok u) = ok u
wrap (err e) = err invalid_result_token

unfoldable pub validate : ResultToken → Result Error (Unit {0})
unfolding validate_id validate_yut_result validate_origin
validate token = do
  wrap (validate_id token.id)
  wrap (validate_yut_result token.result)
  wrap (validate_origin token.origin)
  wrap (validate_id token.generated_by_player_id)

-- A token that `validate` accepts.
abbrev pub IsToken : ResultToken → Type 0
IsToken token = validate token ≡ ok tt
