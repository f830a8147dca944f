-- ===== src/Tests.antt =====
-- Concrete worlds and inputs, at which the theorems are applied.
mod FabricInputs
mod World
mod CoreInputs
mod RelayInputs
mod NodeInputs
mod StreamInputs
mod SdkInputs
mod TextInputs
mod StartInputs
mod DeliveryInputs
mod CliInputs
