-- ===== src/Auth.antt =====
-- Sign-in (internal/auth): refresh tokens and their rotation, password reset, two-factor
-- authentication.
pub mod Fields
pub mod Repository
pub mod TwoFactorRows
pub mod Service
pub mod Reset
pub mod TwoFactor
pub mod Taken
pub mod Rotation
pub mod SingleUse
pub mod Refused
pub mod Once
pub mod Race
pub mod Rotating
pub mod Requests
pub mod ResetOnce
pub mod RecoveryCodes
pub mod SecondFactor
pub mod Columns
