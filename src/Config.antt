-- ===== src/Config.antt =====
-- pkg/config: the parts of a configuration that the services share, and the addresses made of them.
-- A duration is a number of nanoseconds.
pub mod Env
pub mod Services
pub mod Secrets
use Prim.Native.String.{◌++◌ as str_append}
use golang_gin.Prelude.{String, Bool}
use golang_gin.Prelude.Int.{ℤ}

pub record PostgresConfig : Type 0 where
  pub host : String
  pub port : String
  pub user : String
  pub password : String
  pub db_name : String
  pub ssl_mode : String

pub record RedisConfig : Type 0 where
  pub addr : String
  pub password : String
  pub db : ℤ
  pub pool_size : ℤ
  pub min_idle_conns : ℤ
  pub conn_max_idle : ℤ

pub record RabbitMqConfig : Type 0 where
  pub host : String
  pub port : String
  pub user : String
  pub password : String
  pub vhost : String

pub record JwtConfig : Type 0 where
  pub secret : String
  pub access_token_ttl : ℤ

pub record ZarinpalConfig : Type 0 where
  pub merchant_id : String
  pub is_sandbox : Bool
  pub payment_callback_url : String

-- `user:password@host:port/` behind a scheme.
abbrev authority : String → String → String → String → String → String
authority scheme user password host port = str_append scheme (
    str_append user (
      str_append ":" (
        str_append password
          (str_append "@" (str_append host (str_append ":" (str_append port "/")))))))

-- `DSN`
unfoldable pub dsn : PostgresConfig → String
dsn c =
    str_append (authority "postgres://" c.user c.password c.host c.port)
      (str_append c.db_name (str_append "?sslmode=" c.ssl_mode))

-- `URL`
unfoldable pub url : RabbitMqConfig → String
url c = str_append (authority "amqp://" c.user c.password c.host c.port) c.vhost
