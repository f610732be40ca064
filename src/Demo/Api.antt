-- ===== src/Demo/Api.antt =====
-- examples/demo-api/internal/service: the methods of the service, which hand their executors to the
-- framework.
use gframework.Base.{String, Bool}
use gframework.Errors.{GoError}
use gframework.Httpserver.Handling.{ApiResponse, Reply, Echo, Exchange, execute_standardized}
use gframework.Postgres.Health
use gframework.Valkey
use gframework.Demo.Service.{
  Service, CreateUserRequest, CreateUserResponse, GetUserRequest, GetUserResponse,
  UpdateUserRequest, UpdateUserResponse, ListUsersRequest, ListUsersResponse, create_user_execute,
  get_user_execute, update_user_execute, list_users_execute,
}
use gframework.Demo.Readiness.{
  HealthCheckResponse, ReadinessCheckResponse, health_execute, readiness_end,
}

module _ {W : Type 0} (s : Service W) where
  pub create_user :
      Echo W CreateUserRequest
      → CreateUserRequest
      → Exchange W CreateUserRequest
      → Reply (ApiResponse CreateUserResponse) × Exchange W CreateUserRequest
  create_user echo = execute_standardized echo "CreateUser" (create_user_execute s)

  pub get_user :
      Echo W GetUserRequest
      → GetUserRequest
      → Exchange W GetUserRequest
      → Reply (ApiResponse GetUserResponse) × Exchange W GetUserRequest
  get_user echo = execute_standardized echo "GetUser" (get_user_execute s)

  pub update_user :
      Echo W UpdateUserRequest
      → UpdateUserRequest
      → Exchange W UpdateUserRequest
      → Reply (ApiResponse UpdateUserResponse) × Exchange W UpdateUserRequest
  update_user echo = execute_standardized echo "UpdateUser" (update_user_execute s)

  pub list_users :
      Echo W ListUsersRequest
      → ListUsersRequest
      → Exchange W ListUsersRequest
      → Reply (ApiResponse ListUsersResponse) × Exchange W ListUsersRequest
  list_users echo = execute_standardized echo "ListUsers" (list_users_execute s)

-- A request without fields.
abbrev pub NoFields : Type 0
NoFields = Unit

pub check_health :
    {W : Type 0}
    → Echo W NoFields
    → NoFields
    → Exchange W NoFields
    → Reply (ApiResponse HealthCheckResponse) × Exchange W NoFields
check_health echo = execute_standardized echo "CheckHealth" (λ req w. health_execute w)

pub check_readiness :
    {W C P : Type 0} (postgres : Health.Env W) (pool : Bool) (valkey : Valkey.Env W C P)
    (client : Bool) (text_of : GoError → String)
    → Echo W NoFields
    → NoFields
    → Exchange W NoFields
    → Reply (ApiResponse ReadinessCheckResponse) × Exchange W NoFields
check_readiness postgres pool valkey client text_of echo =
    execute_standardized echo "CheckReadiness"
      (λ req w. readiness_end postgres pool valkey client text_of w)
