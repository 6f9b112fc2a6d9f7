-- ===== src/Action.antt =====
-- The base of all actions, src/rvsactionbase.cpp and include/rvsactionbase.h.
mod Property
pub mod Keys
pub mod Getters
pub mod Valid
mod Examples
pub use Property.{Action, Level, error, info, trace}
unfoldable pub use Property.{
  property_set, has_property, property_get_uint_list, property_get_int, property_get_int_or,
  property_get_bool_or, property_get_string, tokens,
}
