-- ===== src/Config/Services.antt =====
-- The `Load` of config/config.go of the order, product, payment and user service and of the gateway.
use golang_gin.Prelude.{String, Bool, true}
use golang_gin.Prelude.Int.{ℤ, pos}
use golang_gin.Errors.{Result, ok, ◌>>=◌}
use golang_gin.Config.{PostgresConfig, RedisConfig, RabbitMqConfig, JwtConfig, ZarinpalConfig}
use golang_gin.Config.Env.{Env, string, int, bool, duration, require}

-- `time.Minute` and `time.Hour`
abbrev pub minutes : ℤ
minutes = pos 60000000000

abbrev pub five_minutes : ℤ
five_minutes = pos 300000000000

abbrev pub fifteen_minutes : ℤ
fifteen_minutes = pos 900000000000

abbrev pub seven_days : ℤ
seven_days = pos 604800000000000

pub record OrderConfig : Type 0 where
  pub grpc_port : String
  pub postgres : PostgresConfig
  pub redis : RedisConfig
  pub rabbit_mq : RabbitMqConfig
  pub jwt : JwtConfig
  pub product_service_addr : String

pub record CacheConfig : Type 0 where
  pub product_ttl : ℤ
  pub search_ttl : ℤ

pub record ProductConfig : Type 0 where
  pub grpc_port : String
  pub postgres : PostgresConfig
  pub redis : RedisConfig
  pub rabbit_mq : RabbitMqConfig
  pub jwt : JwtConfig
  pub cache : CacheConfig

pub record PaymentConfig : Type 0 where
  pub grpc_port : String
  pub postgres : PostgresConfig
  pub redis : RedisConfig
  pub rabbit_mq : RabbitMqConfig
  pub jwt : JwtConfig
  pub zarinpal : ZarinpalConfig

pub record UserConfig : Type 0 where
  pub grpc_port : String
  pub postgres : PostgresConfig
  pub redis : RedisConfig
  pub rabbit_mq : RabbitMqConfig
  pub jwt : JwtConfig
  pub refresh_ttl : ℤ

pub record CookieConfig : Type 0 where
  pub domain : String
  pub secure : Bool
  pub refresh_max_age_seconds : ℤ

pub record GatewayConfig : Type 0 where
  pub http_port : String
  pub user_service_addr : String
  pub redis : RedisConfig
  pub cookie : CookieConfig

module _ (env : Env) where
  -- The part on PostgreSQL, with the user and the database of the service.
  abbrev postgres_of : String → String → String → PostgresConfig
  postgres_of password user db = record {
    host = string env "DB_HOST" "localhost";
    port = string env "DB_PORT" "5432";
    user = string env "DB_USER" user;
    password = password;
    db_name = string env "DB_NAME" db;
    ssl_mode = string env "DB_SSLMODE" "disable";
  }

  abbrev redis_of : ℤ → ℤ → ℤ → ℤ → RedisConfig
  redis_of db pool_size min_idle_conns conn_max_idle = record {
    addr = string env "REDIS_ADDR" "localhost:6379";
    password = string env "REDIS_PASSWORD" "";
    db = db;
    pool_size = pool_size;
    min_idle_conns = min_idle_conns;
    conn_max_idle = conn_max_idle;
  }

  abbrev rabbit_mq_of : String → String → RabbitMqConfig
  rabbit_mq_of password vhost = record {
    host = string env "RABBITMQ_HOST" "localhost";
    port = string env "RABBITMQ_PORT" "5672";
    user = string env "RABBITMQ_USER" "guest";
    password = password;
    vhost = string env "RABBITMQ_VHOST" vhost;
  }

  unfoldable pub load_orders : Result OrderConfig
  load_orders = do
    db_password ← require env "DB_PASSWORD"
    jwt_secret ← require env "JWT_SECRET"
    access_ttl ← duration env "JWT_ACCESS_TTL" fifteen_minutes
    db ← int env "REDIS_DB" (pos 0)
    pool_size ← int env "REDIS_POOL_SIZE" (pos 10)
    min_idle_conns ← int env "REDIS_MIN_IDLE_CONNS" (pos 2)
    conn_max_idle ← duration env "REDIS_CONN_MAX_IDLE" (pos 0)
    rabbit_password ← require env "RABBITMQ_PASSWORD"
    ok (record {
      grpc_port = string env "GRPC_PORT" "50053";
      postgres = postgres_of db_password "order_service" "order_service_db";
      redis = redis_of db pool_size min_idle_conns conn_max_idle;
      rabbit_mq = rabbit_mq_of rabbit_password "";
      jwt = record { secret = jwt_secret; access_token_ttl = access_ttl };
      product_service_addr = string env "PRODUCT_SERVICE_ADDR" "localhost:50052";
    })

  unfoldable pub load_products : Result ProductConfig
  load_products = do
    db_password ← require env "DB_PASSWORD"
    jwt_secret ← require env "JWT_SECRET"
    access_ttl ← duration env "JWT_ACCESS_TTL" fifteen_minutes
    db ← int env "REDIS_DB" (pos 0)
    pool_size ← int env "REDIS_POOL_SIZE" (pos 10)
    min_idle_conns ← int env "REDIS_MIN_IDLE_CONNS" (pos 2)
    conn_max_idle ← duration env "REDIS_CONN_MAX_IDLE" (pos 0)
    product_ttl ← duration env "PRODUCT_CACHE_TTL" five_minutes
    rabbit_password ← require env "RABBITMQ_PASSWORD"
    search_ttl ← duration env "SEARCH_CACHE_TTL" minutes
    ok (record {
      grpc_port = string env "GRPC_PORT" "50052";
      postgres = postgres_of db_password "product_service" "product_service_db";
      redis = redis_of db pool_size min_idle_conns conn_max_idle;
      rabbit_mq = rabbit_mq_of rabbit_password "/";
      jwt = record { secret = jwt_secret; access_token_ttl = access_ttl };
      cache = record { product_ttl = product_ttl; search_ttl = search_ttl };
    })

  unfoldable pub load_payments : Result PaymentConfig
  load_payments = do
    db_password ← require env "DB_PASSWORD"
    jwt_secret ← require env "JWT_SECRET"
    access_ttl ← duration env "JWT_ACCESS_TTL" fifteen_minutes
    db ← int env "REDIS_DB" (pos 0)
    pool_size ← int env "REDIS_POOL_SIZE" (pos 10)
    min_idle_conns ← int env "REDIS_MIN_IDLE_CONNS" (pos 2)
    conn_max_idle ← duration env "REDIS_CONN_MAX_IDLE" five_minutes
    rabbit_password ← require env "RABBITMQ_PASSWORD"
    merchant_id ← require env "MERCHANT_ID"
    is_sandbox ← bool env "IS_SANDBOX" true
    callback_url ← require env "PAYMENT_CALLBACK_URL"
    ok (record {
      grpc_port = string env "GRPC_PORT" "50054";
      postgres = postgres_of db_password "payment_service" "payment_service_db";
      redis = redis_of db pool_size min_idle_conns conn_max_idle;
      rabbit_mq = rabbit_mq_of rabbit_password "";
      jwt = record { secret = jwt_secret; access_token_ttl = access_ttl };
      zarinpal = record {
        merchant_id = merchant_id;
        is_sandbox = is_sandbox;
        payment_callback_url = callback_url;
      };
    })

  unfoldable pub load_users : Result UserConfig
  load_users = do
    db_password ← require env "DB_PASSWORD"
    jwt_secret ← require env "JWT_SECRET"
    rabbit_password ← require env "RABBITMQ_PASSWORD"
    access_ttl ← duration env "JWT_ACCESS_TTL" fifteen_minutes
    refresh_ttl ← duration env "JWT_REFRESH_TTL" seven_days
    db ← int env "REDIS_DB" (pos 0)
    pool_size ← int env "REDIS_POOL_SIZE" (pos 10)
    min_idle_conns ← int env "REDIS_MIN_IDLE_CONNS" (pos 2)
    conn_max_idle ← duration env "REDIS_CONN_MAX_IDLE" five_minutes
    ok (record {
      grpc_port = string env "GRPC_PORT" "50051";
      postgres = postgres_of db_password "user_service" "user_service_db";
      redis = redis_of db pool_size min_idle_conns conn_max_idle;
      rabbit_mq = rabbit_mq_of rabbit_password "/";
      jwt = record { secret = jwt_secret; access_token_ttl = access_ttl };
      refresh_ttl = refresh_ttl;
    })

  unfoldable pub load_gateway : Result GatewayConfig
  load_gateway = do
    db ← int env "REDIS_DB" (pos 0)
    pool_size ← int env "REDIS_POOL_SIZE" (pos 10)
    min_idle_conns ← int env "REDIS_MIN_IDLE_CONNS" (pos 2)
    conn_max_idle ← duration env "REDIS_CONN_MAX_IDLE" five_minutes
    secure ← bool env "COOKIE_SECURE" true
    refresh_max_age ← int env "REFRESH_COOKIE_MAX_AGE_SECONDS" (pos 604800)
    ok (record {
      http_port = string env "HTTP_PORT" "8080";
      user_service_addr = string env "USER_SERVICE_ADDR" "localhost:50051";
      redis = redis_of db pool_size min_idle_conns conn_max_idle;
      cookie = record {
        domain = string env "COOKIE_DOMAIN" "localhost";
        secure = secure;
        refresh_max_age_seconds = refresh_max_age;
      };
    })
