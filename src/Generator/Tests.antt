-- ===== src/Generator/Tests.antt =====
-- Runs of the naming functions (templates/generator.go).
use service_forge.Prelude.{◌≡◌, refl}
use service_forge.Generator.{service_base_name, to_snake, to_ident, to_pascal}

base_of_order : service_base_name "order-service" ≡ "order"
unfolding service_base_name
base_of_order = refl

base_of_suffix : service_base_name "_service" ≡ "_service"
unfolding service_base_name
base_of_suffix = refl

snake_of_words : to_snake "Order-line" ≡ "order_line"
unfolding to_snake
snake_of_words = refl

ident_of_words : to_ident "Order-line_x" ≡ "orderlinex"
unfolding to_ident
ident_of_words = refl

pascal_of_words : to_pascal "order--LINE_x" ≡ "OrderLineX"
unfolding to_pascal
pascal_of_words = refl
