-- ===== src/Api/Errors/Envelope.antt =====
-- The statuses that internal/api/errors.go can answer.
use dockerdless.Base.{ℕ, ◌≡◌, false, some, Text, arith, is_empty}
use dockerdless.Failures.{docker_root, is_error}
use dockerdless.App.Errors.{kind_for_status}
use dockerdless.Api.Errors.{
  DockerError, ErrorKind, kind_not_found, kind_conflict, kind_invalid_parameter,
  kind_not_implemented, kind_server, error_status, envelope, new_not_found, new_conflict,
  new_invalid_parameter, new_not_implemented, new_server_error, error_for_status, map_service_error,
}

-- The one status of each kind.
abbrev pub kind_status : ErrorKind → ℕ
kind_status kind_not_found = 404
kind_status kind_conflict = 409
kind_status kind_invalid_parameter = 400
kind_status kind_not_implemented = 501
kind_status kind_server = 500

-- An error body that Docker's clients understand: the status is that of the kind, it is the status
-- that is written, and there is a message.
abbrev pub IsAnswer : DockerError → Type 0
IsAnswer d =
    (d.status ≡ kind_status d.kind)
    × (error_status (some d) ≡ d.status)
    × (is_empty d.message ≡ false)

-- An error that internal/app builds from a status with kindForStatus is answered with the status
-- that NewDockerError gives for it, whatever the messages.
pub kind_for_status_agrees :
    (status : ℕ) (message text : Text)
    → (map_service_error (some (docker_root (kind_for_status status) message))).status
      ≡ (error_for_status status text).status
unfolding kind_for_status error_for_status map_service_error new_not_found new_conflict
    new_invalid_parameter new_not_implemented new_server_error envelope is_error
kind_for_status_agrees status message text = ground arith
