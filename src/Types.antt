-- ===== src/Types.antt =====
-- include/core/types.hpp: the enumerations and structs that requests and responses are made of.
-- A time point and a positive duration are numbers of milliseconds; a `double` is kept as its bits.
use http_web_framework.Prelude.{Bool, Option, false, none, suc, true, ℕ, ◌∷◌}
use http_web_framework.Text.{Bytes, to_string}

pub data HttpMethod : Type 0 where
  get post put delete patch head options trace connect : HttpMethod

-- `static_cast<int>(method)`
unfoldable pub method_code : HttpMethod → ℕ
method_code HttpMethod.get = 0
method_code HttpMethod.post = 1
method_code HttpMethod.put = 2
method_code HttpMethod.delete = 3
method_code HttpMethod.patch = 4
method_code HttpMethod.head = 5
method_code HttpMethod.options = 6
method_code HttpMethod.trace = 7
method_code HttpMethod.connect = 8

pub data HttpVersion : Type 0 where
  http_1_0 http_1_1 http_2_0 http_3_0 : HttpVersion

pub data CompressionType : Type 0 where
  no_compression gzip deflate brotli : CompressionType

pub record HttpHeader : Type 0 where
  pub name : Bytes
  pub value : Bytes

-- Signed integers: `negsuc n` is -(n + 1).
pub data ℤ : Type 0 where
  pos : ℕ → ℤ
  negsuc : ℕ → ℤ

-- `oss << n`
unfoldable pub to_string_ℤ : ℤ → Bytes
unfolding to_string
to_string_ℤ (pos n) = to_string n
to_string_ℤ (negsuc n) = b'-' ∷ to_string (suc n)

pub record HttpCookie : Type 0 where
  pub name : Bytes
  pub value : Bytes
  pub domain : Option Bytes
  pub path : Option Bytes
  pub expires : Option ℕ
  pub max_age : Option ℤ
  pub secure : Bool
  pub http_only : Bool
  pub same_site : Option Bytes

-- `HttpCookie(n, v)`
unfoldable pub new_cookie : Bytes → Bytes → HttpCookie
new_cookie n v = record {
  name = n;
  value = v;
  domain = none;
  path = none;
  expires = none;
  max_age = none;
  secure = false;
  http_only = false;
  same_site = none;
}

pub data IpAddress : Type 0 where
  v4 : Bytes → IpAddress
  v6 : Bytes → IpAddress

unfoldable pub is_ipv6 : IpAddress → Bool
is_ipv6 (v4 a) = false
is_ipv6 (v6 a) = true

pub record Endpoint : Type 0 where
  pub address : IpAddress
  pub port : ℕ

-- `variant<string, int64_t, double, bool>`, and its alternatives.
pub data Attribute : Type 0 where
  str : Bytes → Attribute
  int : ℤ → Attribute
  double : ℕ → Attribute
  bool : Bool → Attribute

pub data AttributeType : Type 0 where
  str_type int_type double_type bool_type : AttributeType

-- `std::holds_alternative<T>(a)`
unfoldable pub holds_alternative : AttributeType → Attribute → Bool
holds_alternative str_type (str s) = true
holds_alternative int_type (int n) = true
holds_alternative double_type (double d) = true
holds_alternative bool_type (bool b) = true
holds_alternative _ _ = false
