-- ===== src/CliInput.antt =====
-- tunstrap/cli_input.py: what the command line says of the connection. A text is the list of its
-- characters, by their codes: 58 is the colon, 64 the sign `@`, 91 and 93 are the square brackets.
pub mod Port
pub mod Endpoint
pub mod Ports
pub mod Endpoints
pub mod Reads
pub mod Named
pub mod Names
